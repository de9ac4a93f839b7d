-- ===== src/Storage/Insert/Batch.antt =====
-- What StoreBatch does to the table: a batch adds rows at the end, each for a metric of the batch,
-- until every metric's key is there.
use tidewatch.Base.{
  ℕ, ◌+◌, ◌≡◌, refl, sym, ap, ◌∙◌, inl, inr, some, true, List, [], ◌∷◌, ◌++◌, append-nil,
  append_assoc, arith, Text, text_eq_iff, All, All-append, All-imp, In, Bool-cases,
}
use tidewatch.Models.{Metric}
use tidewatch.Storage.Table.{Row, Db, has_key}
use tidewatch.Storage.Codec.{
  Codec, Result, ok, err, OnOk, OnOk-bind, OnOk-imp, fail_if, or_fail, begin_failed, prepare_failed,
  serialize_failed, insert_failed, commit_failed, or_fail-eq-ok, Error,
}
use tidewatch.Storage.Insert.{
  Faults, insert_row, insert_all, transaction, store_batch, or_rollback, new_row,
  generate_dedup_key, serialize_tags,
}

has_key-append_left :
    (k : Text) (rs qs : List Row) → has_key k rs ≡ true → has_key k (rs ++ qs) ≡ true
unfolding has_key
has_key-append_left k [] qs h = cc
has_key-append_left k (r ∷ rs) qs h = ground (arith, has_key-append_left k rs qs)

has_key-append_last :
    (k : Text) (rs : List Row) (r : Row) → r.dedup_key ≡ some k → has_key k (rs ++ r ∷ []) ≡ true
unfolding has_key
has_key-append_last k [] r e = ground (arith, text_eq_iff k k)
has_key-append_last k (x ∷ rs) r e = ground (arith, has_key-append_last k rs r e)

-- The row stands for a metric of the batch, under some id.
pub record IsRowOf (c : Codec) (session_id : Text) (ms : List Metric) (r : Row) : Type 0 where
  pub metric : Metric
  pub member : In metric ms
  pub tags_json : Text
  pub serialized : serialize_tags c metric.tags ≡ some tags_json
  pub written : r ≡ new_row c session_id metric tags_json r.id

IsRowOf-cons :
    (c : Codec) (session_id : Text) (m : Metric) (ms : List Metric) (r : Row)
    → IsRowOf c session_id ms r
    → IsRowOf c session_id (m ∷ ms) r
IsRowOf-cons c session_id m ms r h = record {
  metric = h.metric;
  member = inr h.member;
  tags_json = h.tags_json;
  serialized = h.serialized;
  written = h.written;
}

abbrev pub IsStored : Codec → List Row → Metric → Type 0
IsStored c rows m = has_key (generate_dedup_key c m) rows ≡ true

-- The table grew by rows of the batch, and now every metric of the batch is there.
pub record Added (c : Codec) (session_id : Text) (ms : List Metric) (db db' : Db) : Type 0 where
  pub added : List Row
  pub extends : db'.rows ≡ db.rows ++ added
  pub from_batch : All (IsRowOf c session_id ms) added
  pub complete : All (IsStored c db'.rows) ms

Added-refl : (c : Codec) (session_id : Text) (db : Db) → Added c session_id [] db db
Added-refl c session_id db = record {
  added = [];
  extends = sym (append-nil db.rows);
  from_batch = tt;
  complete = tt;
}

-- One INSERT leaves the metric's key in the table, and adds its row or nothing.
insert_row-IsStored :
    (c : Codec) (session_id : Text) (m : Metric) (t : Text) (db : Db)
    → IsStored c (insert_row c session_id m t db).rows m
unfolding insert_row
insert_row-IsStored c session_id m t db =
    elim (Bool-cases (has_key (generate_dedup_key c m) db.rows)) [
      | inl old ↦ rw old old
      | inr new ↦ rw new (has_key-append_last (generate_dedup_key c m) db.rows _ refl)
    ]

abbrev GrowsBy : Codec → Text → List Metric → Db → Db → Type 0
GrowsBy c session_id ms db db' =
    (added : List Row) × (db'.rows ≡ db.rows ++ added) × All (IsRowOf c session_id ms) added

insert_row-GrowsBy :
    (c : Codec) (session_id : Text) (m : Metric) (ms : List Metric) (t : Text) (db : Db)
    → serialize_tags c m.tags ≡ some t
    → GrowsBy c session_id (m ∷ ms) db (insert_row c session_id m t db)
unfolding insert_row
insert_row-GrowsBy c session_id m ms t db e =
    elim (Bool-cases (has_key (generate_dedup_key c m) db.rows)) [
      | inl old ↦ rw old ([], sym (append-nil db.rows), tt)
      | inr new ↦ rw new (row ∷ [], refl, (of_m, tt))
    ]
  where
    row : Row
    row = new_row c session_id m t (db.seq + 1)

    of_m : IsRowOf c session_id (m ∷ ms) row
    of_m =
        unfold new_row in
        record { metric = m; member = inl refl; tags_json = t; serialized = e; written = refl }

IsStored-append :
    (c : Codec) (rs qs : List Row) (ms : List Metric)
    → All (IsStored c rs) ms
    → All (IsStored c (rs ++ qs)) ms
IsStored-append c rs qs ms =
    All-imp (λ m h. has_key-append_left (generate_dedup_key c m) rs qs h) ms

insert_all-Added :
    (c : Codec) (f : Faults) (session_id : Text) (i : ℕ) (ms : List Metric) (db : Db)
    → OnOk (Added c session_id ms db) (insert_all c f session_id i ms db)
unfolding insert_all
insert_all-Added c f session_id i [] db = Added-refl c session_id db
insert_all-Added c f session_id i (m ∷ ms) db =
    OnOk-bind goal (or_fail (serialize_tags c m.tags) serialize_failed) _ λ t e.
      OnOk-bind goal (fail_if (f.exec i) insert_failed) _ λ _ _.
        OnOk-imp (insert_all c f session_id (i + 1) ms (insert_row c session_id m t db))
          (λ db' h. step t (or_fail-eq-ok (serialize_tags c m.tags) serialize_failed e) db' h)
          (insert_all-Added c f session_id (i + 1) ms (insert_row c session_id m t db))
  where
    goal : Db → Type 0
    goal = Added c session_id (m ∷ ms) db

    step :
        (t : Text)
        → serialize_tags c m.tags ≡ some t
        → (db' : Db) → Added c session_id ms (insert_row c session_id m t db) db'
        → Added c session_id (m ∷ ms) db db'
    step t e db' h =
        let (first, ef, af) = insert_row-GrowsBy c session_id m ms t db e in
        record {
          added = first ++ h.added;
          extends = h.extends ∙ ap (λ rs. rs ++ h.added) ef ∙ append_assoc db.rows first h.added;
          from_batch =
              All-append _ first h.added af
                (All-imp (λ r k. IsRowOf-cons c session_id m ms r k) h.added h.from_batch);
          complete = (
            rw h.extends (
                has_key-append_left (generate_dedup_key c m) _ h.added
                  (insert_row-IsStored c session_id m t db)),
            h.complete,
          );
        }

transaction-Added :
    (c : Codec) (f : Faults) (session_id : Text) (ms : List Metric) (db : Db)
    → OnOk (Added c session_id ms db) (transaction c f session_id ms db)
unfolding transaction
transaction-Added c f session_id ms db = OnOk-bind goal (fail_if f.begins begin_failed) _ λ _ _.
    OnOk-bind goal (fail_if f.prepares prepare_failed) _ λ _ _.
      OnOk-bind goal (insert_all c f session_id 0 ms db) _ λ db' e.
        OnOk-bind goal (fail_if f.commits commit_failed) _
          λ _ _. rw e at (insert_all-Added c f session_id 0 ms db)
  where
    goal : Db → Type 0
    goal = Added c session_id ms db

-- How a batch can end.
pub data Outcome (c : Codec) (session_id : Text) (ms : List Metric) (db db' : Db)
    : Result (Unit {0}) → Type 0 where
  committed : Added c session_id ms db db' → Outcome c session_id ms db db' (ok tt)
  rolled_back : {e : Error} → db' ≡ db → Outcome c session_id ms db db' (err e)

or_rollback-Outcome :
    (c : Codec) (session_id : Text) (ms : List Metric) (db : Db) (r : Result Db)
    → OnOk (Added c session_id ms db) r
    → Outcome c session_id ms db (or_rollback db r).1 (or_rollback db r).0
or_rollback-Outcome c session_id ms db (ok db') h = committed h
or_rollback-Outcome c session_id ms db (err e) h = rolled_back refl

-- StoreBatch is all or nothing, whichever calls of the driver fail. If it returns no error, the old
-- rows stand unchanged in front, every new row is that of a metric of the batch, and every metric's
-- dedup_key is in the table; if it returns an error, the table is as it was.
pub store_batch-Outcome :
    (c : Codec) (f : Faults) (session_id : Text) (ms : List Metric) (db : Db)
    → Outcome c session_id ms db
        (store_batch c f session_id ms db).1
        (store_batch c f session_id ms db).0
unfolding store_batch
store_batch-Outcome c f session_id [] db = committed (Added-refl c session_id db)
store_batch-Outcome c f session_id (m ∷ ms) db =
    or_rollback-Outcome c session_id (m ∷ ms) db (transaction c f session_id (m ∷ ms) db)
      (transaction-Added c f session_id (m ∷ ms) db)
