-- ===== src/Storage/Migrate/Steps.antt =====
-- What the SQL and the backfills of each migration leave, whichever calls of the driver fail.
use tidewatch.Base.{
  ℕ, ◌≡◌, refl, ◌∙◌, inl, inr, true, List, [], ◌∷◌, map, arith, Option-cases, not, subst, leb, Text,
  keep,
}
use tidewatch.Storage.Table.{Row, has_key}
use tidewatch.Storage.Codec.{
  Codec, OnOk, OnOk-bind, fail_if, schema_failed, query_failed, prepare_failed, rows_failed,
}
use tidewatch.Storage.Migrate.{
  create_metrics, add_upload_columns, add_value_columns, Schema, MigrationFaults, keys_are_unique,
  unless_violated, write_keys, create_key_index, migrate_v3_backfill, with_upload_columns,
  with_value_columns, migrate_v5_regenerate_dedup_keys, with_rows, has_no_key, numeric_type,
  own_type,
}
use tidewatch.Storage.Migrate.Kept.{
  Original, original, table, IsAt, unless_violated-ok, Written, write_keys-Written,
}

-- A schema that is that of the version but for its record in schema_version.
pub record Prepared (n : ℕ) (s s' : Schema) : Type 0 where
  pub versions : s'.versions ≡ s.versions
  pub metrics : s'.has_metrics ≡ leb 1 n
  pub upload_columns : s'.has_upload_columns ≡ leb 2 n
  pub key_index : s'.has_key_index ≡ leb 3 n
  pub value_columns : s'.has_value_columns ≡ leb 4 n
  pub unique : s'.has_key_index ≡ true → keys_are_unique s'.db.rows ≡ true
  pub kept : map original (table s') ≡ map original (table s)

-- New columns are not among the original ones.
original-with_upload_columns :
    (rs : List Row) → map original (map with_upload_columns rs) ≡ map original rs
unfolding with_upload_columns Original
original-with_upload_columns [] = refl
original-with_upload_columns (r ∷ rs) = ground (arith, original-with_upload_columns rs)

original-with_value_columns :
    (rs : List Row) → map original (map with_value_columns rs) ≡ map original rs
unfolding with_value_columns Original
original-with_value_columns [] = refl
original-with_value_columns (r ∷ rs) = ground (arith, original-with_value_columns rs)

has_key-with_value_columns :
    (k : Text) (rs : List Row) → has_key k (map with_value_columns rs) ≡ has_key k rs
unfolding with_value_columns has_key
has_key-with_value_columns k [] = refl
has_key-with_value_columns k (r ∷ rs) = ground (arith, has_key-with_value_columns k rs)

keys_are_unique-with_value_columns :
    (rs : List Row) → keys_are_unique (map with_value_columns rs) ≡ keys_are_unique rs
unfolding with_value_columns keys_are_unique
keys_are_unique-with_value_columns [] = refl
keys_are_unique-with_value_columns (r ∷ rs) = elim (Option-cases r.dedup_key) [
  | inl e ↦ rw e (keys_are_unique-with_value_columns rs)
  | inr (k, e) ↦ rw (e, has_key-with_value_columns k rs, keys_are_unique-with_value_columns rs) refl
]

pub create_metrics-Prepared : (s : Schema) → IsAt 0 s → OnOk (Prepared 1 s) (create_metrics s)
unfolding create_metrics
create_metrics-Prepared s a = rw a.metrics (record {
  versions = refl;
  metrics = refl;
  upload_columns = a.upload_columns;
  key_index = a.key_index;
  value_columns = a.value_columns;
  unique = λ h. cc (a.key_index, h);
  kept = refl;
})

pub add_upload_columns-Prepared :
    (s : Schema) → IsAt 1 s → OnOk (Prepared 2 s) (add_upload_columns s)
unfolding add_upload_columns
add_upload_columns-Prepared s a =
    rw (a.metrics, a.upload_columns)
      (record {
        versions = refl;
        metrics = refl;
        upload_columns = refl;
        key_index = a.key_index;
        value_columns = a.value_columns;
        unique = λ h. cc (a.key_index, h);
        kept = original-with_upload_columns s.db.rows;
      })

pub add_value_columns-Prepared : (s : Schema) → IsAt 3 s → OnOk (Prepared 4 s) (add_value_columns s)
unfolding add_value_columns
add_value_columns-Prepared s a =
    rw (a.metrics, a.value_columns)
      (record {
        versions = refl;
        metrics = refl;
        upload_columns = a.upload_columns;
        key_index = a.key_index;
        value_columns = refl;
        unique = λ h. keys_are_unique-with_value_columns s.db.rows ∙ a.unique a.key_index;
        kept = original-with_value_columns s.db.rows;
      })

create_key_index-Prepared :
    (s : Schema) (rs : List Row)
    → IsAt 2 s
    → Written s.has_key_index s.db.rows rs
    → OnOk (Prepared 3 s) (create_key_index (with_rows s rs))
unfolding create_key_index
create_key_index-Prepared s rs a w =
    OnOk-bind (Prepared 3 s) (unless_violated (not s.has_key_index) rs) _ λ rs' e.
      let (same, u) = rw e at (unless_violated-ok (not s.has_key_index) rs) in
      record {
        versions = refl;
        metrics = a.metrics;
        upload_columns = a.upload_columns;
        key_index = refl;
        value_columns = a.value_columns;
        unique = λ h. subst (λ l. keys_are_unique l ≡ true) same (u (rw a.key_index refl));
        kept = rw a.metrics w.kept;
      }

pub migrate_v3-Prepared :
    (c : Codec) (f : MigrationFaults) (s : Schema)
    → IsAt 2 s
    → OnOk (Prepared 3 s) (migrate_v3_backfill c f s)
unfolding migrate_v3_backfill
migrate_v3-Prepared c f s a = OnOk-bind goal (fail_if f.query query_failed) _ λ _ _.
    OnOk-bind goal (fail_if f.prepares prepare_failed) _ λ _ _.
      OnOk-bind goal (write_keys c f numeric_type s.has_key_index 0 todo s.db.rows) _ λ rs e.
        OnOk-bind goal (fail_if f.rows rows_failed) _ λ _ _.
          OnOk-bind goal (fail_if f.index schema_failed) _ λ _ _. create_key_index-Prepared s rs a (
            rw e at (write_keys-Written c f numeric_type s.has_key_index 0 todo s.db.rows a.unique))
  where
    goal : Schema → Type 0
    goal = Prepared 3 s

    todo : List Row
    todo = keep has_no_key s.db.rows

pub migrate_v5-Prepared :
    (c : Codec) (f : MigrationFaults) (s : Schema)
    → IsAt 4 s
    → OnOk (Prepared 5 s) (migrate_v5_regenerate_dedup_keys c f s)
unfolding migrate_v5_regenerate_dedup_keys
migrate_v5-Prepared c f s a = OnOk-bind goal (fail_if f.query query_failed) _ λ _ _.
    OnOk-bind goal (fail_if f.prepares prepare_failed) _ λ _ _.
      OnOk-bind goal (write_keys c f own_type s.has_key_index 0 s.db.rows s.db.rows) _ λ rs e.
        OnOk-bind goal (fail_if f.rows rows_failed) _ λ _ _.
          let w : Written s.has_key_index s.db.rows rs =
            rw e at
              (write_keys-Written c f own_type s.has_key_index 0 s.db.rows s.db.rows a.unique) in
          record {
            versions = refl;
            metrics = a.metrics;
            upload_columns = a.upload_columns;
            key_index = a.key_index;
            value_columns = a.value_columns;
            unique = w.unique;
            kept = rw a.metrics w.kept;
          }
  where
    goal : Schema → Type 0
    goal = Prepared 5 s
