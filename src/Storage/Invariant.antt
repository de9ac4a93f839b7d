-- ===== src/Storage/Invariant.antt =====
-- The well-formedness of the metrics table, and that StoreBatch keeps it.
pub mod Changes
use tidewatch.Base.{
  ℕ, ◌+◌, ◌≤◌, ◌<◌, ◌≡◌, refl, ◌∙◌, inl, inr, Option, none, some, Bool, false, List, [], ◌∷◌, ◌++◌,
  map, Text, text_eq_iff, arith, Bool-cases, keep,
}
use tidewatch.Base.Int.{ℤ}
use tidewatch.Models.{Metric}
use tidewatch.Storage.Table.{Row, Db, has_text, has_key, empty_db}
use tidewatch.Storage.Codec.{
  Codec, Result, ok, err, OnOk, OnOk-bind, fail_if, or_fail, begin_failed, prepare_failed,
  serialize_failed, insert_failed, commit_failed, update_failed,
}
use tidewatch.Storage.Insert.{
  Faults, insert_row, insert_all, transaction, store_batch, or_rollback, new_row,
  generate_dedup_key, serialize_tags,
}
use tidewatch.Storage.Update.{
  TxFaults, DeleteFaults, set_uploaded, mark_transaction, mark_uploaded, delete_before,
}

-- Ids grow along the table, from above `lo` up to `hi`.
abbrev pub IdsBetween : ℕ → List Row → ℕ → Type 0
IdsBetween lo [] hi = lo ≤ hi
IdsBetween lo (r ∷ rs) hi = (lo < r.id) × IdsBetween r.id rs hi

-- No later row has this key.
abbrev pub IsFresh : Option Text → List Row → Type 0
IsFresh none rs = Unit
IsFresh (some k) rs = has_key k rs ≡ false

abbrev pub UniqueKeys : List Row → Type 0
UniqueKeys [] = Unit
UniqueKeys (r ∷ rs) = IsFresh r.dedup_key rs × UniqueKeys rs

abbrev pub FlagsAreBits : List Row → Type 0
FlagsAreBits [] = Unit
FlagsAreBits (r ∷ rs) = (r.uploaded ≤ 1) × FlagsAreBits rs

-- The ids grow up to the sequence number, no two rows share a key, and `uploaded` is 0 or 1.
pub record IsWellFormed (db : Db) : Type 0 where
  pub ids : IdsBetween 0 db.rows db.seq
  pub unique : UniqueKeys db.rows
  pub flags : FlagsAreBits db.rows

pub empty_db-IsWellFormed : IsWellFormed empty_db
empty_db-IsWellFormed = record { ids = omega arith; unique = tt; flags = tt }

-- appending a row

pub IdsBetween-append :
    (lo : ℕ) (rs : List Row) (hi : ℕ) (r : Row)
    → IdsBetween lo rs hi
    → r.id ≡ hi + 1
    → IdsBetween lo (rs ++ r ∷ []) (hi + 1)
IdsBetween-append lo [] hi r h e = (omega arith, omega arith)
IdsBetween-append lo (x ∷ rs) hi r (h, hs) e = (h, IdsBetween-append x.id rs hi r hs e)

pub has_key-append :
    (k : Text) (rs : List Row) (r : Row)
    → has_key k rs ≡ false
    → has_text k r.dedup_key ≡ false
    → has_key k (rs ++ r ∷ []) ≡ false
unfolding has_key
has_key-append k [] r h e = ground arith
has_key-append k (x ∷ rs) r h e = ground (arith, has_key-append k rs r)

IsFresh-append :
    (o : Option Text) (k : Text) (rs : List Row) (r : Row)
    → has_text k o ≡ false
    → r.dedup_key ≡ some k
    → IsFresh o rs
    → IsFresh o (rs ++ r ∷ [])
IsFresh-append none k rs r h e f = tt
IsFresh-append (some j) k rs r h e f =
    has_key-append j rs r f (ground (arith, text_eq_iff j k, text_eq_iff k j))

UniqueKeys-append :
    (k : Text) (rs : List Row) (r : Row)
    → has_key k rs ≡ false
    → r.dedup_key ≡ some k
    → UniqueKeys rs
    → UniqueKeys (rs ++ r ∷ [])
unfolding has_key
UniqueKeys-append k [] r h e u = ground arith
UniqueKeys-append k (x ∷ rs) r h e (f, u) = (
  IsFresh-append x.dedup_key k rs r (ground arith) e f,
  UniqueKeys-append k rs r (ground arith) e u,
)

FlagsAreBits-append :
    (rs : List Row) (r : Row) → r.uploaded ≤ 1 → FlagsAreBits rs → FlagsAreBits (rs ++ r ∷ [])
FlagsAreBits-append [] r h b = (h, tt)
FlagsAreBits-append (x ∷ rs) r h (bx, b) = (bx, FlagsAreBits-append rs r h b)

pub insert_row-IsWellFormed :
    (c : Codec) (session_id : Text) (m : Metric) (tags_json : Text) {db : Db}
    → IsWellFormed db
    → IsWellFormed (insert_row c session_id m tags_json db)
unfolding insert_row
insert_row-IsWellFormed c session_id m tags_json {db} w =
    elim (Bool-cases (has_key (generate_dedup_key c m) db.rows)) [
      | inl old ↦ rw old w
      | inr new ↦ rw new (record {
        ids = IdsBetween-append 0 db.rows db.seq row w.ids refl;
        unique = UniqueKeys-append (generate_dedup_key c m) db.rows row new refl w.unique;
        flags = FlagsAreBits-append db.rows row (omega arith) w.flags;
      })
    ]
  where
    row : Row
    row = new_row c session_id m tags_json (db.seq + 1)

insert_all-IsWellFormed :
    (c : Codec) (f : Faults) (session_id : Text) (i : ℕ) (ms : List Metric) (db : Db)
    → IsWellFormed db
    → OnOk IsWellFormed (insert_all c f session_id i ms db)
unfolding insert_all
insert_all-IsWellFormed c f session_id i [] db w = w
insert_all-IsWellFormed c f session_id i (m ∷ ms) db w =
    OnOk-bind IsWellFormed (or_fail (serialize_tags c m.tags) serialize_failed) _ λ t _.
      OnOk-bind IsWellFormed (fail_if (f.exec i) insert_failed) _ λ _ _.
        insert_all-IsWellFormed c f session_id (i + 1) ms (insert_row c session_id m t db)
          (insert_row-IsWellFormed c session_id m t w)

transaction-IsWellFormed :
    (c : Codec) (f : Faults) (session_id : Text) (ms : List Metric) (db : Db)
    → IsWellFormed db
    → OnOk IsWellFormed (transaction c f session_id ms db)
unfolding transaction
transaction-IsWellFormed c f session_id ms db w =
    OnOk-bind IsWellFormed (fail_if f.begins begin_failed) _ λ _ _.
      OnOk-bind IsWellFormed (fail_if f.prepares prepare_failed) _ λ _ _.
        OnOk-bind IsWellFormed (insert_all c f session_id 0 ms db) _ λ db' e.
          OnOk-bind IsWellFormed (fail_if f.commits commit_failed) _
            λ _ _. rw e at (insert_all-IsWellFormed c f session_id 0 ms db w)

-- A transaction keeps the table well formed, whether it commits or rolls back.
pub or_rollback-IsWellFormed :
    (db : Db) (r : Result Db)
    → IsWellFormed db
    → OnOk IsWellFormed r
    → IsWellFormed (or_rollback db r).1
or_rollback-IsWellFormed db (ok db') w h = h
or_rollback-IsWellFormed db (err e) w h = w

pub store_batch-IsWellFormed :
    (c : Codec) (f : Faults) (session_id : Text) (ms : List Metric) (db : Db)
    → IsWellFormed db
    → IsWellFormed (store_batch c f session_id ms db).1
unfolding store_batch
store_batch-IsWellFormed c f session_id [] db w = w
store_batch-IsWellFormed c f session_id (m ∷ ms) db w =
    or_rollback-IsWellFormed db (transaction c f session_id (m ∷ ms) db) w
      (transaction-IsWellFormed c f session_id (m ∷ ms) db w)
