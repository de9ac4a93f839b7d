-- ===== src/Storage/Insert.antt =====
-- generateDedupKey, serializeTags, Store and StoreBatch of internal/storage/storage.go.
pub mod Again
pub mod Batch
pub mod Canonical
use tidewatch.Base.{
  ℕ, suc, ◌+◌, Option, none, some, Bool, true, false, List, [], ◌∷◌, ◌++◌, map, Text, text_le, Dict,
  lookup, insert, insertion_sort, if◌then◌else◌,
}
use tidewatch.Models.{Metric, Tags}
use tidewatch.Storage.Table.{Row, Db, has_key}
use tidewatch.Storage.Codec.{
  Codec, DedupData, Result, ok, err, begin_failed, prepare_failed, serialize_failed, insert_failed,
  commit_failed, ◌>>=◌, ◌>>◌, fail_if, or_fail,
}

abbrev pub keys : Tags → List Text
keys = map λ e. e.0

-- `for _, k := range tagKeys { sortedTags[k] = metric.Tags[k] }`; a missing key reads as "".
unfoldable pub pick : Tags → List Text → Tags → Tags
pick tags [] out = out
pick tags (k ∷ ks) out =
    pick tags ks (insert k (elim (lookup k tags) [ none ↦ [] | some v ↦ v ]) out)

-- The tags in the order of their keys.
unfoldable pub sorted_tags : Tags → Tags
unfolding pick
sorted_tags tags = pick tags (insertion_sort text_le (keys tags)) []

unfoldable pub dedup_data : Metric → DedupData
dedup_data m = record {
  name = m.name;
  timestamp_ms = m.timestamp_ms;
  device_id = m.device_id;
  tags = sorted_tags m.tags;
  value_type = m.value_type;
}

unfoldable pub generate_dedup_key : Codec → Metric → Text
unfolding dedup_data
generate_dedup_key c m = c.digest (dedup_data m)

unfoldable pub serialize_tags : Codec → Tags → Option Text
serialize_tags c [] = some []
serialize_tags c (t ∷ ts) = c.marshal_tags (t ∷ ts)

-- The row that the INSERT writes, before it has an id.
unfoldable pub new_row : Codec → Text → Metric → Text → ℕ → Row
new_row c session_id m tags_json id = record {
  id = id;
  timestamp_ms = m.timestamp_ms;
  metric_name = m.name;
  metric_value = c.bind_real m.value;
  device_id = some m.device_id;
  uploaded = 0;
  priority = 1;
  session_id = some session_id;
  dedup_key = some (generate_dedup_key c m);
  tags_json = some tags_json;
  value_text = some m.value_text;
  value_type = m.value_type;
}

-- INSERT … ON CONFLICT (dedup_key) DO NOTHING
unfoldable pub insert_row : Codec → Text → Metric → Text → Db → Db
unfolding new_row
insert_row c session_id m tags_json db =
    if has_key (generate_dedup_key c m) db.rows then db else record {
      rows = db.rows ++ new_row c session_id m tags_json (db.seq + 1) ∷ [];
      seq = db.seq + 1;
    }

-- Which calls of the driver fail: the statement's n-th execution is `exec n`.
pub record Faults : Type 0 where
  pub begins : Bool
  pub prepares : Bool
  pub exec : ℕ → Bool
  pub commits : Bool

-- The loop over the batch inside the transaction.
unfoldable pub insert_all : Codec → Faults → Text → ℕ → List Metric → Db → Result Db
unfolding insert_row serialize_tags
insert_all c f session_id i [] db = ok db
insert_all c f session_id i (m ∷ ms) db = do
  tags_json ← or_fail (serialize_tags c m.tags) serialize_failed
  fail_if (f.exec i) insert_failed
  insert_all c f session_id (i + 1) ms (insert_row c session_id m tags_json db)

-- The database that the transaction would commit, or why it fails.
unfoldable pub transaction : Codec → Faults → Text → List Metric → Db → Result Db
unfolding insert_all
transaction c f session_id ms db = do
  fail_if f.begins begin_failed
  fail_if f.prepares prepare_failed
  db' ← insert_all c f session_id 0 ms db
  fail_if f.commits commit_failed
  ok db'

-- The deferred Rollback undoes what was not committed.
abbrev pub or_rollback : Db → Result Db → Result (Unit {0}) × Db
or_rollback db (ok db') = (ok tt, db')
or_rollback db (err e) = (err e, db)

unfoldable pub store_batch : Codec → Faults → Text → List Metric → Db → Result (Unit {0}) × Db
unfolding transaction
store_batch c f session_id [] db = (ok tt, db)
store_batch c f session_id (m ∷ ms) db = or_rollback db (transaction c f session_id (m ∷ ms) db)

unfoldable pub store : Codec → Faults → Text → Metric → Db → Result (Unit {0}) × Db
unfolding store_batch
store c f session_id m db = store_batch c f session_id (m ∷ []) db
