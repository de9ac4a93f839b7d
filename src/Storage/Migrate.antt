-- ===== src/Storage/Migrate.antt =====
-- migrateSchema, migrateV3Backfill and migrateV5RegenerateDedupKeys of internal/storage/storage.go.
pub mod Kept
pub mod Steps
pub mod Versions
pub mod Regenerated
use tidewatch.Base.{
  ℕ, suc, ◌+◌, Option, none, some, Bool, true, false, not, ◌&&◌, List, [], ◌∷◌, ◌++◌, map, Text,
  ltb, ◌==◌, if◌then◌else◌, keep,
}
use tidewatch.Models.{Metric, ValueType, value_type_numeric}
use tidewatch.Storage.Table.{Row, Db, empty_db, has_key}
use tidewatch.Storage.Codec.{
  Codec, Result, ok, err, begin_failed, prepare_failed, query_failed, scan_failed, update_failed,
  insert_failed, rows_failed, schema_failed, commit_failed, ◌>>=◌, ◌>>◌, fail_if, or_fail,
}
use tidewatch.Storage.Insert.{generate_dedup_key}
use tidewatch.Storage.Select.{stored_tags}

-- The database file: the versions in schema_version, which parts of the schema it has, and the rows of
-- metrics, where a column that is not there yet may hold anything.
pub record Schema : Type 0 where
  pub versions : List ℕ
  pub has_metrics : Bool
  pub has_upload_columns : Bool
  pub has_key_index : Bool
  pub has_value_columns : Bool
  pub db : Db

-- Which calls of the driver fail in one migration.
pub record MigrationFaults : Type 0 where
  pub begins : Bool
  pub exec : Bool
  pub query : Bool
  pub prepares : Bool
  pub updates : ℕ → Bool
  pub rows : Bool
  pub index : Bool
  pub records : Bool
  pub commits : Bool

-- ADD COLUMN gives every row the column's default.
unfoldable pub with_upload_columns : Row → Row
with_upload_columns r = record r {
  uploaded = 0;
  priority = 1;
  session_id = none;
  dedup_key = none;
  tags_json = none;
}

unfoldable pub with_value_columns : Row → Row
with_value_columns r = record r { value_text = none; value_type = 0 }

abbrev pub map_rows : (Row → Row) → Db → Db
map_rows f db = record db { rows = map f db.rows }

unfoldable pub create_metrics : Schema → Result Schema
create_metrics s = ok (if s.has_metrics then s else record s { has_metrics = true; db = empty_db })

unfoldable pub add_upload_columns : Schema → Result Schema
unfolding with_upload_columns
add_upload_columns s =
    if s.has_metrics && not s.has_upload_columns
    then ok (record s { has_upload_columns = true; db = map_rows with_upload_columns s.db })
    else err schema_failed

unfoldable pub add_value_columns : Schema → Result Schema
unfolding with_value_columns
add_value_columns s =
    if s.has_metrics && not s.has_value_columns
    then ok (record s { has_value_columns = true; db = map_rows with_value_columns s.db })
    else err schema_failed

-- `tx.Exec(migration.sql)`; the SQL of migrations 3 and 5 is a comment.
unfoldable pub migration_sql : ℕ → Schema → Result Schema
unfolding create_metrics add_upload_columns add_value_columns
migration_sql version s =
    if version == 1
    then create_metrics s
    else if version == 2
    then add_upload_columns s
    else if version == 4
    then add_value_columns s
    else ok s

-- A key that two rows share violates the unique index; NULLs do not.
abbrev is_fresh : Option Text → List Row → Bool
is_fresh none rs = true
is_fresh (some k) rs = not (has_key k rs)

unfoldable pub keys_are_unique : List Row → Bool
unfolding has_key
keys_are_unique [] = true
keys_are_unique (r ∷ rs) = is_fresh r.dedup_key rs && keys_are_unique rs

-- The table after a statement, which fails where it violates the index that is there.
unfoldable pub unless_violated : Bool → List Row → Result (List Row)
unfolding keys_are_unique
unless_violated false rs = ok rs
unless_violated true rs = if keys_are_unique rs then ok rs else err update_failed

unfoldable pub set_key : ℕ → Text → Row → Row
set_key id k r = if r.id == id then record r { dedup_key = some k } else r

-- The metric that a migration makes of a row; migration 3 leaves its value type at 0.
unfoldable pub legacy_metric : Codec → (Row → ValueType) → Row → Result Metric
legacy_metric c type_of r = do
  device_id ← or_fail r.device_id scan_failed
  tags ← stored_tags c r.tags_json
  ok (record {
    timestamp_ms = r.timestamp_ms;
    name = r.metric_name;
    value = 0;
    value_text = [];
    value_type = type_of r;
    device_id = device_id;
    tags = tags;
  })

-- The loop over the rows that the query returned, with the n-th UPDATE as `updates n`.
unfoldable pub write_keys :
    Codec → MigrationFaults → (Row → ValueType) → Bool → ℕ → List Row → List Row → Result (List Row)
unfolding legacy_metric set_key unless_violated
write_keys c f type_of index n [] rs = ok rs
write_keys c f type_of index n (r ∷ todo) rs = do
  m ← legacy_metric c type_of r
  fail_if (f.updates n) update_failed
  rs' ← unless_violated index (map (set_key r.id (generate_dedup_key c m)) rs)
  write_keys c f type_of index (n + 1) todo rs'

abbrev pub with_rows : Schema → List Row → Schema
with_rows s rs = record s { db = record s.db { rows = rs } }

abbrev pub has_no_key : Row → Bool
has_no_key r = elim r.dedup_key [ none ↦ true | some k ↦ false ]

abbrev pub numeric_type : Row → ValueType
numeric_type r = value_type_numeric

abbrev pub own_type : Row → ValueType
own_type r = r.value_type

-- CREATE UNIQUE INDEX IF NOT EXISTS idx_dedup_key
unfoldable pub create_key_index : Schema → Result Schema
unfolding unless_violated
create_key_index s = do
  rs ← unless_violated (not s.has_key_index) s.db.rows
  ok (record s { has_key_index = true })

unfoldable pub migrate_v3_backfill : Codec → MigrationFaults → Schema → Result Schema
unfolding write_keys create_key_index
migrate_v3_backfill c f s = do
  fail_if f.query query_failed
  fail_if f.prepares prepare_failed
  rs ← write_keys c f numeric_type s.has_key_index 0 (keep has_no_key s.db.rows) s.db.rows
  fail_if f.rows rows_failed
  fail_if f.index schema_failed
  create_key_index (with_rows s rs)

unfoldable pub migrate_v5_regenerate_dedup_keys : Codec → MigrationFaults → Schema → Result Schema
unfolding write_keys
migrate_v5_regenerate_dedup_keys c f s = do
  fail_if f.query query_failed
  fail_if f.prepares prepare_failed
  rs ← write_keys c f own_type s.has_key_index 0 s.db.rows s.db.rows
  fail_if f.rows rows_failed
  ok (with_rows s rs)

-- The custom logic of migrations 3 and 5.
unfoldable pub backfill : Codec → MigrationFaults → ℕ → Schema → Result Schema
unfolding migrate_v3_backfill migrate_v5_regenerate_dedup_keys
backfill c f version s =
    if version == 3
    then migrate_v3_backfill c f s
    else if version == 5
    then migrate_v5_regenerate_dedup_keys c f s
    else ok s

-- One migration inside its transaction.
unfoldable pub migrate_one : Codec → MigrationFaults → ℕ → Schema → Result Schema
unfolding migration_sql backfill
migrate_one c f version s = do
  fail_if f.begins begin_failed
  fail_if f.exec schema_failed
  s ← migration_sql version s
  s ← backfill c f version s
  fail_if f.records insert_failed
  fail_if f.commits commit_failed
  ok (record s { versions = version ∷ s.versions })

-- SELECT COALESCE(MAX(version), 0)
unfoldable pub max_version : List ℕ → ℕ
max_version [] = 0
max_version (v ∷ vs) = if ltb (max_version vs) v then v else max_version vs

-- A migration that fails is rolled back, and no other follows it.
abbrev pub or_stop :
    (Schema → Result (Unit {0}) × Schema) → Schema → Result Schema → Result (Unit {0}) × Schema
or_stop rest s (err e) = (err e, s)
or_stop rest s (ok s') = rest s'

-- The loop over the migrations.
unfoldable pub migrate_all :
    Codec → (ℕ → MigrationFaults) → ℕ → List ℕ → Schema → Result (Unit {0}) × Schema
unfolding migrate_one
migrate_all c f current [] s = (ok tt, s)
migrate_all c f current (v ∷ vs) s =
    if ltb current v
    then or_stop (migrate_all c f current vs) s (migrate_one c (f v) v s)
    else migrate_all c f current vs s

abbrev pub migrations : List ℕ
migrations = 1 ∷ 2 ∷ 3 ∷ 4 ∷ 5 ∷ []

-- `creates` and `reads`: whether the first two statements fail.
unfoldable pub migrate_schema :
    Codec → Bool → Bool → (ℕ → MigrationFaults) → Schema → Result (Unit {0}) × Schema
unfolding migrate_all max_version
migrate_schema c creates reads f s =
    if creates
    then (err schema_failed, s)
    else if reads
    then (err query_failed, s)
    else migrate_all c f (max_version s.versions) migrations s
