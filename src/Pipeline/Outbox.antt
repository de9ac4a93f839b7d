-- ===== src/Pipeline/Outbox.antt =====
-- What the store and the uploader of cmd/tidewatch/main.go promise together: an outbox. It is a bag of
-- pending rows, without an order, that takes rows in and gives rows away only once they are delivered.
pub mod Refinement
pub mod Balance
use mathlib.Core.Quot
use mathlib.Core.Quot.{Quot, Quot-set}
use mathlib.Core.List.Perm
use tidewatch.Base.{◌≡◌, true, List, ◌++◌, All, Perm}
use tidewatch.Models.{Metric}
use tidewatch.Storage.Table.{Row, Db}
use tidewatch.Storage.Codec.{ok}
use tidewatch.Storage.Select.{scan_rows, id_tags, is_pending}
use tidewatch.Uploader.Chunks.{Chunk, positive_size}
use tidewatch.Uploader.Chunks.Complete.{Covers}
use tidewatch.Pipeline.Rounds.{Setup}
use tidewatch.Pipeline.Split.{pending}

-- Lists of rows up to their order.
abbrev pub Bag : Type 0
Bag = Quot (Perm {A = Row})

unfoldable pub put : List Row → Bag → Bag
put rows =
    Quot.lift Quot-set (λ bag. Quot.mk (rows ++ bag))
      (λ xs ys p. Quot.sound (Perm.append (Perm.refl rows) p))

-- The pending rows of a table.
abbrev pub view : Db → Bag
view db = Quot.mk (pending db)

-- A step of the outbox, in which the server takes some chunks.
pub data Step (s : Setup) (taken : List Chunk) (bag bag' : Bag) : Type 0 where
  -- nothing changes, and chunks that were taken may be sent again
  rests : bag' ≡ bag → Step s taken bag bag'
  -- new pending rows
  accepts :
      (new : List Row)
      → All (λ r. is_pending r ≡ true) new
      → bag' ≡ put new bag
      → Step s taken bag bag'
  -- rows leave, with all of their metrics taken
  releases :
      (gone : List Row) (ms : List Metric)
      → scan_rows s.codec id_tags gone ≡ ok ms
      → Covers s.uploader.wire (positive_size s.uploader.chunk_size) ms taken
      → bag ≡ put gone bag'
      → Step s taken bag bag'

-- Steps one after the other.
pub data Steps (s : Setup) : Bag → Bag → Type 0 where
  done : {bag : Bag} → Steps s bag bag
  step :
      {bag bag' bag'' : Bag} (taken : List Chunk)
      → Step s taken bag bag'
      → Steps s bag' bag''
      → Steps s bag bag''
