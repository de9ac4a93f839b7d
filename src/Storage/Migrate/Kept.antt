-- ===== src/Storage/Migrate/Kept.antt =====
-- What every migration keeps, and what the loop of the backfills leaves.
use tidewatch.Base.{
  ℕ, ◌+◌, ◌≡◌, refl, ap, ◌∙◌, inl, inr, Option, Bool, true, false, List, [], ◌∷◌, map, arith,
  Bool-cases, leb, if◌then◌else◌, Text,
}
use tidewatch.Base.Int.{ℤ}
use tidewatch.Models.{Float64, Metric, ValueType}
use tidewatch.Storage.Table.{Row}
use tidewatch.Storage.Codec.{Codec, OnOk, OnOk-bind, OnOk-imp, fail_if, update_failed}
use tidewatch.Storage.Insert.{generate_dedup_key}
use tidewatch.Storage.Migrate.{
  Schema, MigrationFaults, max_version, keys_are_unique, unless_violated, set_key, legacy_metric,
  write_keys,
}

-- What migration 1 keeps of a metric, and no later migration may change.
unfoldable pub Original : Type 0
Original = ℕ × ℤ × Text × Option Float64 × Option Text

abbrev pub original : Row → Original
unfolding Original
original r = (r.id, r.timestamp_ms, r.metric_name, r.metric_value, r.device_id)

-- The rows of metrics, of which there are none before the table is there.
abbrev pub table : Schema → List Row
table s = if s.has_metrics then s.db.rows else []

-- The schema is that of the version, and the unique index holds.
pub record IsAt (n : ℕ) (s : Schema) : Type 0 where
  pub version : max_version s.versions ≡ n
  pub metrics : s.has_metrics ≡ leb 1 n
  pub upload_columns : s.has_upload_columns ≡ leb 2 n
  pub key_index : s.has_key_index ≡ leb 3 n
  pub value_columns : s.has_value_columns ≡ leb 4 n
  pub unique : s.has_key_index ≡ true → keys_are_unique s.db.rows ≡ true

-- The step to a version, with the metrics kept.
pub record Migrated (n : ℕ) (s s' : Schema) : Type 0 where
  pub at : IsAt n s'
  pub kept : map original (table s') ≡ map original (table s)

-- Writing a key keeps what it has to keep.
original-set_key :
    (id : ℕ) (k : Text) (rs : List Row) → map original (map (set_key id k) rs) ≡ map original rs
unfolding set_key Original
original-set_key id k [] = refl
original-set_key id k (r ∷ rs) = ground (arith, original-set_key id k rs)

pub unless_violated-ok :
    (index : Bool) (rs : List Row)
    → OnOk
        (λ rs'. (rs' ≡ rs) × (index ≡ true → keys_are_unique rs' ≡ true))
        (unless_violated index rs)
unfolding unless_violated
unless_violated-ok false rs = (refl, λ h. cc)
unless_violated-ok true rs = elim (Bool-cases (keys_are_unique rs)) [
  | inl e ↦ rw e (refl, λ h. e)
  | inr e ↦ rw e tt
]

-- The loop of the two backfills: the metrics are kept, and the index holds after it.
pub record Written (index : Bool) (rs rs' : List Row) : Type 0 where
  pub kept : map original rs' ≡ map original rs
  pub unique : index ≡ true → keys_are_unique rs' ≡ true

pub write_keys-Written :
    (c : Codec) (f : MigrationFaults) (type_of : Row → ValueType) (index : Bool) (n : ℕ)
    (todo rs : List Row)
    → (index ≡ true → keys_are_unique rs ≡ true)
    → OnOk (Written index rs) (write_keys c f type_of index n todo rs)
unfolding write_keys
write_keys-Written c f type_of index n [] rs u = record { kept = refl; unique = u }
write_keys-Written c f type_of index n (r ∷ todo) rs u =
    OnOk-bind (Written index rs) (legacy_metric c type_of r) _ λ m _.
      OnOk-bind (Written index rs) (fail_if (f.updates n) update_failed) _ λ _ _.
        OnOk-bind (Written index rs) (unless_violated index (keyed m)) _ λ rs' e.
          let (same, u') = rw e at (unless_violated-ok index (keyed m)) in
          OnOk-imp (write_keys c f type_of index (n + 1) todo rs')
            (λ rs'' w. record {
              kept =
                  w.kept
                  ∙ ap (map original) same
                  ∙ original-set_key r.id (generate_dedup_key c m) rs;
              unique = w.unique;
            })
            (write_keys-Written c f type_of index (n + 1) todo rs' u')
  where
    keyed : Metric → List Row
    keyed m = map (set_key r.id (generate_dedup_key c m)) rs
