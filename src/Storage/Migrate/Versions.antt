-- ===== src/Storage/Migrate/Versions.antt =====
-- The schema versions that a run of migrateSchema goes through, whichever calls of the driver fail.
use tidewatch.Base.{
  ℕ, zero, suc, ◌≤◌, ◌<◌, ◌≡◌, refl, ◌∙◌, inl, inr, Bool, true, false, List, [], ◌∷◌, arith,
  Bool-cases, subst, ltb,
}
use tidewatch.Storage.Codec.{
  Codec, Result, ok, err, Error, OnOk, OnOk-bind, fail_if, begin_failed, schema_failed,
  insert_failed, commit_failed,
}
use tidewatch.Storage.Migrate.{
  Schema, MigrationFaults, migration_sql, backfill, migrate_one, max_version, migrate_all, or_stop,
  migrations, migrate_schema, migrate_v3_backfill, migrate_v5_regenerate_dedup_keys,
}
use tidewatch.Storage.Migrate.Kept.{IsAt, Migrated}
use tidewatch.Storage.Migrate.Steps.{
  Prepared, create_metrics-Prepared, add_upload_columns-Prepared, add_value_columns-Prepared,
  migrate_v3-Prepared, migrate_v5-Prepared,
}

-- The SQL and the custom logic of a migration, from the version before it.
backfill-Prepared :
    (c : Codec) (f : MigrationFaults) (n : ℕ) (s s' : Schema)
    → n < 5
    → IsAt n s
    → migration_sql (suc n) s ≡ ok s'
    → OnOk (Prepared (suc n) s) (backfill c f (suc n) s')
unfolding migration_sql backfill
backfill-Prepared c f zero s s' h a e = subst (OnOk (Prepared 1 s)) e (create_metrics-Prepared s a)
backfill-Prepared c f (suc zero) s s' h a e =
    subst (OnOk (Prepared 2 s)) e (add_upload_columns-Prepared s a)
backfill-Prepared c f (suc (suc zero)) s s' h a e =
    subst (λ x. OnOk (Prepared 3 s) (migrate_v3_backfill c f x)) (cc e)
      (migrate_v3-Prepared c f s a)
backfill-Prepared c f (suc (suc (suc zero))) s s' h a e =
    subst (OnOk (Prepared 4 s)) e (add_value_columns-Prepared s a)
backfill-Prepared c f (suc (suc (suc (suc zero)))) s s' h a e =
    subst (λ x. OnOk (Prepared 5 s) (migrate_v5_regenerate_dedup_keys c f x)) (cc e)
      (migrate_v5-Prepared c f s a)
backfill-Prepared c f (suc (suc (suc (suc (suc n))))) s s' h a e = absurd (omega arith)

Migrated-recorded :
    (n : ℕ) (s s' : Schema)
    → IsAt n s
    → Prepared (suc n) s s'
    → Migrated (suc n) s (record s' { versions = suc n ∷ s'.versions })
unfolding max_version
Migrated-recorded n s s' a p = record {
  at = record {
    version =
        let before : max_version s'.versions ≡ n = rw p.versions a.version in
        rw before (ground arith);
    metrics = p.metrics;
    upload_columns = p.upload_columns;
    key_index = p.key_index;
    value_columns = p.value_columns;
    unique = p.unique;
  };
  kept = p.kept;
}

pub migrate_one-Migrated :
    (c : Codec) (f : MigrationFaults) (n : ℕ) (s : Schema)
    → n < 5
    → IsAt n s
    → OnOk (Migrated (suc n) s) (migrate_one c f (suc n) s)
unfolding migrate_one
migrate_one-Migrated c f n s h a = OnOk-bind goal (fail_if f.begins begin_failed) _ λ _ _.
    OnOk-bind goal (fail_if f.exec schema_failed) _ λ _ _.
      OnOk-bind goal (migration_sql (suc n) s) _ λ s1 e1.
        OnOk-bind goal (backfill c f (suc n) s1) _ λ s2 e2.
          OnOk-bind goal (fail_if f.records insert_failed) _ λ _ _.
            OnOk-bind goal (fail_if f.commits commit_failed) _
              λ _ _. Migrated-recorded n s s2 a (rw e2 at (backfill-Prepared c f n s s1 h a e1))
  where
    goal : Schema → Type 0
    goal = Migrated (suc n) s

-- How a run from version n ends.
pub data Outcome (n : ℕ) (s s' : Schema) : Result (Unit {0}) → Type 0 where
  finished : Migrated 5 s s' → Outcome n s s' (ok tt)
  stopped : {e : Error} (m : ℕ) → n ≤ m → m ≤ 5 → Migrated m s s' → Outcome n s s' (err e)

-- The versions after k, in order.
Consecutive : ℕ → List ℕ → Type 0
Consecutive k [] = k ≡ 5
Consecutive k (v ∷ vs) = (v ≡ suc k) × (k < 5) × Consecutive (suc k) vs

Outcome-step :
    (n : ℕ) (s s1 s2 : Schema) {r : Result (Unit {0})}
    → Migrated (suc n) s s1
    → Outcome (suc n) s1 s2 r
    → Outcome n s s2 r
Outcome-step n s s1 s2 m (finished x) = finished (record { at = x.at; kept = x.kept ∙ m.kept })
Outcome-step n s s1 s2 m (stopped k lo hi x) =
    stopped k (omega arith) hi (record { at = x.at; kept = x.kept ∙ m.kept })

pub unchanged : {n : ℕ} {s : Schema} → IsAt n s → Migrated n s s
unchanged a = record { at = a; kept = refl }

or_stop-Outcome :
    (n : ℕ) (rest : Schema → Result (Unit {0}) × Schema) (s : Schema) (r : Result Schema)
    → n < 5
    → IsAt n s
    → OnOk (Migrated (suc n) s) r
    → ((s1 : Schema) → IsAt (suc n) s1 → Outcome (suc n) s1 (rest s1).1 (rest s1).0)
    → Outcome n s (or_stop rest s r).1 (or_stop rest s r).0
or_stop-Outcome n rest s (err e) h a m k = stopped n (omega arith) (omega arith) (unchanged a)
or_stop-Outcome n rest s (ok s1) h a m k = Outcome-step n s s1 (rest s1).1 m (k s1 m.at)

-- The loop from the schema's version on.
migrate_all-Outcome :
    (c : Codec) (f : ℕ → MigrationFaults) (current n : ℕ) (vs : List ℕ) (s : Schema)
    → Consecutive n vs
    → current ≤ n
    → IsAt n s
    → Outcome n s (migrate_all c f current vs s).1 (migrate_all c f current vs s).0
unfolding migrate_all Consecutive
migrate_all-Outcome c f current n [] s last h a =
    finished (unchanged (subst (λ m. IsAt m s) last a))
migrate_all-Outcome c f current n (v ∷ vs) s (e, below, q) h a =
    let newer : ltb current (suc n) ≡ true = ground arith in
    rw (e, newer)
      (or_stop-Outcome n (migrate_all c f current vs) s (migrate_one c (f (suc n)) (suc n) s) below
        a (migrate_one-Migrated c (f (suc n)) n s below a)
        λ s1 at. migrate_all-Outcome c f current (suc n) vs s1 q (omega arith) at)

-- The loop skips the versions that the schema has.
migrate_all-Outcome_old :
    (c : Codec) (f : ℕ → MigrationFaults) (current k : ℕ) (vs : List ℕ) (s : Schema)
    → Consecutive k vs
    → k ≤ current
    → current ≤ 5
    → IsAt current s
    → Outcome current s (migrate_all c f current vs s).1 (migrate_all c f current vs s).0
unfolding Consecutive migrate_all
migrate_all-Outcome_old c f current k [] s last h most a =
    let same : k ≡ current = omega arith in
    migrate_all-Outcome c f current current [] s (omega arith) (omega arith) a
migrate_all-Outcome_old c f current k (v ∷ vs) s (e, below, q) h most a =
    elim (Bool-cases (ltb k current)) [
      | inl old ↦
          let skipped : ltb current (suc k) ≡ false = ground arith in
          rw (e, skipped) (migrate_all-Outcome_old c f current (suc k) vs s q (ground arith) most a)
      | inr now ↦
          let same : k ≡ current = ground arith in
          migrate_all-Outcome c f current current (v ∷ vs) s
            (subst (λ m. Consecutive m (v ∷ vs)) same (e, below, q)) (omega arith) a
    ]

-- On a schema at version n of 0 to 5, whichever calls of the driver fail: if migrateSchema returns no
-- error, the schema is at version 5, and if it returns one, at a version from n to 5. Each version has
-- its columns and indexes and no two equal keys under the index, and the id, time, name, value and
-- device of every row are as before, in order.
pub migrate_schema-Outcome :
    (c : Codec) (creates reads : Bool) (f : ℕ → MigrationFaults) (n : ℕ) (s : Schema)
    → n ≤ 5
    → IsAt n s
    → Outcome n s (migrate_schema c creates reads f s).1 (migrate_schema c creates reads f s).0
unfolding migrate_schema
migrate_schema-Outcome c creates reads f n s h a = elim (Bool-cases creates) [
  | inl e ↦ rw e (stopped n (omega arith) h (unchanged a))
  | inr e ↦ rw e (elim (Bool-cases reads) [
    | inl e' ↦ rw e' (stopped n (omega arith) h (unchanged a))
    | inr e' ↦
        rw (e', a.version) (migrate_all-Outcome_old c f n 0 migrations s in_order (omega arith) h a)
  ])
]
  where
    in_order : Consecutive 0 migrations
    in_order = unfold Consecutive in omega arith
