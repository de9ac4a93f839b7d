-- ===== src/Pipeline/Marks.antt =====
-- What uploadMetrics marks: the rows of its batch, when the server has all of their metrics.
use tidewatch.Base.{
  ◌^◌, ◌<◌, ◌≡◌, true, List, arith, All, All-imp, All-left, All-perm, All-keep, All-kept,
}
use mathlib.Core.List.Perm
use native.Mathlib.Bridge.{le_prop}
use tidewatch.Storage.Table.{Row, Db}
use tidewatch.Storage.Codec.{Codec}
use tidewatch.Storage.Select.{is_pending, unuploaded_rows}
use tidewatch.Storage.Invariant.{IsWellFormed}
use tidewatch.Pipeline.Rounds.{Setup}
use tidewatch.Pipeline.Selected.{IsRowId, IsUnreserved}
use tidewatch.Pipeline.Split.{pending, later_rows, split_sorted, IdsBetween-All}

-- A table that uploadMetrics can tell apart by the storage ids: well formed, with ids in int64, and no
-- stored tag named like the tag that carries the id.
pub record IsUploadable (c : Codec) (db : Db) : Type 0 where
  pub formed : IsWellFormed db
  pub in_range : db.seq < 2 ^ 63
  pub unreserved : All (IsUnreserved c) db.rows

-- The rows of the batch.
abbrev pub batch : Setup → Db → List Row
batch s db = unuploaded_rows s.by_upload s.batch_size db

module _ (s : Setup) (db : Db) (u : IsUploadable s.codec db) where
  -- what holds of all rows holds of those in the batch
  All-batch {κ} :
      (P : Row → Type κ) → ((r : Row) → IsProp (P r)) → All P (pending db) → All P (batch s db)
  All-batch P prop h = All-left P (batch s db) (later_rows s.by_upload s.batch_size db) (
      rw (split_sorted s.by_upload s.batch_size db)
        (All-perm P prop (Perm.symm (s.by_upload.sort-perm (pending db))) h))

  pub batch_pending : All (λ r. is_pending r ≡ true) (batch s db)
  batch_pending = All-batch (λ r. is_pending r ≡ true) (λ r. hlevel) (All-kept is_pending db.rows)

  pub batch_ids : All IsRowId (batch s db)
  batch_ids =
      All-batch IsRowId (λ r. hlevel le_prop)
        (All-keep IsRowId is_pending db.rows (
          All-imp (λ r k. (k.0, omega (arith, u.in_range, k.1))) db.rows
            (IdsBetween-All 0 db.rows db.seq u.formed.ids).0))

  pub batch-IsUnreserved : All (IsUnreserved s.codec) (batch s db)
  batch-IsUnreserved =
      All-batch (IsUnreserved s.codec) (λ r. hlevel)
        (All-keep (IsUnreserved s.codec) is_pending db.rows u.unreserved)
