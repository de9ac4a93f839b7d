-- ===== src/Storage/Open/Handles.antt =====
-- What opening a store does to the database and to the handles on it.
use tidewatch.Base.{
  ℕ, suc, ◌+◌, ◌≤◌, ◌≡◌, refl, ap, inl, inr, Bool, not, ◌&&◌, Option, none, some, List, [], ◌∷◌,
  arith, Bool-cases, Text, codes, has_prefix,
}
use tidewatch.Storage.Codec.{Codec, Result, ok, err}
use tidewatch.Storage.Migrate.{Schema, migrate_schema}
use tidewatch.Storage.Migrate.Kept.{IsAt, Migrated}
use tidewatch.Storage.Migrate.Versions.{
  Outcome, finished, stopped, unchanged, migrate_schema-Outcome,
}
use tidewatch.Storage.Open.{
  OpenFaults, OpenError, Database, pragmas, set_pragmas, close, initialized, tuned,
  new_sqlite_storage,
}

-- How a call ends on a schema at version n.
pub data Opening (n : ℕ) (d d' : Database) : Option OpenError → Type 0 where
  opened :
      d'.handles ≡ suc d.handles
      → d'.pragmas_set ≡ pragmas
      → Migrated 5 d.schema d'.schema
      → Opening n d d' none
  failed :
      {e : OpenError} (m : ℕ)
      → d'.handles ≡ d.handles
      → n ≤ m
      → m ≤ 5
      → Migrated m d.schema d'.schema
      → Opening n d d' (some e)

-- Without a failure all pragmas are set, in order.
set_pragmas-all :
    (f : ℕ → Bool) (i : ℕ) (ps : List Text)
    → (set_pragmas f i ps).1 ≡ none
    → (set_pragmas f i ps).0 ≡ ps
unfolding set_pragmas
set_pragmas-all f i [] h = refl
set_pragmas-all f i (p ∷ ps) h = elim (Bool-cases (f i)) [
  | inl e ↦ absurd (ground (arith, e, h))
  | inr e ↦ rw e (ap (λ l. p ∷ l) (set_pragmas-all f (i + 1) ps (ground (arith, e, h))))
]

initialized-Opening :
    (n : ℕ) (d d' : Database) (s : Schema) (r : Result (Unit {0}))
    → d'.handles ≡ suc d.handles
    → d'.pragmas_set ≡ pragmas
    → Outcome n d.schema s r
    → Opening n d (initialized (r, s) d').1 (initialized (r, s) d').0
unfolding close
initialized-Opening n d d' s (ok u) one set (finished m) = opened one set m
initialized-Opening n d d' s (err e) one set (stopped k lo hi m) =
    failed k (omega (arith, one)) lo hi m

tuned-Opening :
    (c : Codec) (f : OpenFaults) (n : ℕ) (d : Database) (done : List Text) (o : Option Text)
    → n ≤ 5
    → IsAt n d.schema
    → (o ≡ none → done ≡ pragmas)
    → let d' = record d { handles = suc d.handles } in
      Opening n d (tuned c f (done, o) d').1 (tuned c f (done, o) d').0
unfolding close
tuned-Opening c f n d done (some p) h a set = failed n (omega arith) (omega arith) h (unchanged a)
tuned-Opening c f n d done none h a set =
    let run = migrate_schema c f.creates f.reads f.migration d.schema in
    initialized-Opening n d _ run.1 run.0 refl (set refl)
      (migrate_schema-Outcome c f.creates f.reads f.migration n d.schema h a)

-- NewSQLiteStorage on a schema at version n of 0 to 5, whichever calls fail. If it returns a store, one
-- more handle is open, all pragmas are set on it in order, and the schema is at version 5. If it returns
-- an error, no handle is left open, and the schema is at a version from n to 5. Each version has its
-- columns and indexes and no two equal keys under the index, and the id, time, name, value and device of
-- every row are as before, in order.
pub new_sqlite_storage-Opening :
    (c : Codec) (f : OpenFaults) (path : Text) (n : ℕ) (d : Database)
    → n ≤ 5
    → IsAt n d.schema
    → Opening n d (new_sqlite_storage c f path d).1 (new_sqlite_storage c f path d).0
unfolding new_sqlite_storage
new_sqlite_storage-Opening c f path n d h a =
    elim (Bool-cases (not (has_prefix path (codes "file:")) && f.mkdir)) [
      | inl e ↦ rw e (failed n refl (omega arith) h (unchanged a))
      | inr e ↦ rw e (elim (Bool-cases f.opens) [
        | inl e' ↦ rw e' (failed n refl (omega arith) h (unchanged a))
        | inr e' ↦ rw e' (tuned-Opening c f n d _ _ h a (set_pragmas-all f.pragma 0 pragmas))
      ])
    ]
