-- ===== src/Storage/Update.antt =====
-- MarkUploaded and DeleteBefore of internal/storage/storage.go.
use tidewatch.Base.{ℕ, Bool, false, not, ◌||◌, List, [], ◌∷◌, map, if◌then◌else◌, length, keep}
use tidewatch.Base.Int.{ℤ, pos, ltb_ℤ, eqb_ℤ}
use tidewatch.Storage.Table.{Row, Db}
use tidewatch.Storage.Codec.{
  Result, ok, err, begin_failed, commit_failed, update_failed, delete_failed, rows_failed, ◌>>◌,
  fail_if,
}
use tidewatch.Storage.Insert.{or_rollback}

-- id IN (…)
unfoldable pub has_id : List ℤ → ℕ → Bool
has_id [] n = false
has_id (i ∷ is) n = eqb_ℤ i (pos n) || has_id is n

unfoldable pub set_uploaded : List ℤ → Row → Row
set_uploaded ids r = if has_id ids r.id then record r { uploaded = 1 } else r

pub record TxFaults : Type 0 where
  pub begins : Bool
  pub exec : Bool
  pub commits : Bool

unfoldable pub mark_transaction : TxFaults → List ℤ → Db → Result Db
unfolding set_uploaded
mark_transaction f ids db = do
  fail_if f.begins begin_failed
  fail_if f.exec update_failed
  fail_if f.commits commit_failed
  ok (record db { rows = map (set_uploaded ids) db.rows })

unfoldable pub mark_uploaded : TxFaults → List ℤ → Db → Result (Unit {0}) × Db
unfolding mark_transaction
mark_uploaded f [] db = (ok tt, db)
mark_uploaded f (i ∷ is) db = or_rollback db (mark_transaction f (i ∷ is) db)

-- timestamp_ms < ?
unfoldable pub is_before : ℤ → Row → Bool
is_before t r = ltb_ℤ r.timestamp_ms t

pub record DeleteFaults : Type 0 where
  pub exec : Bool
  pub affected : Bool

-- The statement takes effect by itself: a failing RowsAffected leaves it done.
unfoldable pub delete_before : DeleteFaults → ℤ → Db → Result ℕ × Db
unfolding is_before
delete_before f t db = if f.exec then (err delete_failed, db) else (
  if f.affected then err rows_failed else ok (length (keep (is_before t) db.rows)),
  record db { rows = keep (λ r. not (is_before t r)) db.rows },
)
