-- ===== src/Pipeline/Outbox/Balance.antt =====
-- What the outbox accounts for: every row that it took in is still pending or was delivered.
use mathlib.Core.Quot
use mathlib.Core.Quot.{Quot}
use mathlib.Core.List.Perm
use tidewatch.Base.{◌≡◌, List, [], ◌++◌, true, All}
use tidewatch.Models.{Metric}
use tidewatch.Storage.Table.{Row}
use tidewatch.Storage.Codec.{ok}
use tidewatch.Storage.Select.{scan_rows, id_tags, is_pending}
use tidewatch.Uploader.Chunks.{Chunk, positive_size}
use tidewatch.Uploader.Chunks.Complete.{Covers}
use tidewatch.Pipeline.Rounds.{Setup}
use tidewatch.Pipeline.Outbox.{Bag, put}

-- Rows whose metrics the server took, batch by batch.
pub data Delivered (s : Setup) : List Row → Type 0 where
  nothing : Delivered s []
  batch :
      (gone rest : List Row) (ms : List Metric) (taken : List Chunk)
      → scan_rows s.codec id_tags gone ≡ ok ms
      → Covers s.uploader.wire (positive_size s.uploader.chunk_size) ms taken
      → Delivered s rest
      → Delivered s (gone ++ rest)

-- What went in and what was delivered balance the two bags.
pub record Balanced (s : Setup) (bag bag' : Bag) : Type 0 where
  pub accepted : List Row
  pub gone : List Row
  pub pending : All (λ r. is_pending r ≡ true) accepted
  pub delivered : Delivered s gone
  pub balance : put accepted bag ≡ put gone bag'
