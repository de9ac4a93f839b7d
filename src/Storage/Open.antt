-- ===== src/Storage/Open.antt =====
-- NewSQLiteStorage, initSchema and DBSize of internal/storage/storage.go.
pub mod Handles
use tidewatch.Base.{
  ℕ, suc, ◌+◌, ◌-◌, ◌*◌, Bool, true, false, not, ◌&&◌, Option, none, some, List, [], ◌∷◌,
  if◌then◌else◌, Text, codes, has_prefix,
}
use tidewatch.Base.Int.{ℤ}
use tidewatch.Uploader.Errors.{wrap_int64}
use tidewatch.Storage.Codec.{Codec, Result, ok, err, Error}
use tidewatch.Storage.Migrate.{Schema, MigrationFaults, migrate_schema}

-- Which calls fail: the directory, the open, the pragmas by their position, and the migrations.
pub record OpenFaults : Type 0 where
  pub mkdir : Bool
  pub opens : Bool
  pub pragma : ℕ → Bool
  pub creates : Bool
  pub reads : Bool
  pub migration : ℕ → MigrationFaults

pub data OpenError : Type 0 where
  mkdir_failed : OpenError
  open_failed : OpenError
  pragma_failed : (pragma : Text) → OpenError
  schema_failed : Error → OpenError

-- The handles on the database that the process has open, the database's schema, and the pragmas set on
-- the handle that was opened last.
pub record Database : Type 0 where
  pub handles : ℕ
  pub schema : Schema
  pub pragmas_set : List Text

abbrev pub pragmas : List Text
pragmas =
    codes "PRAGMA journal_mode=WAL"
    ∷ codes "PRAGMA synchronous=NORMAL"
    ∷ codes "PRAGMA busy_timeout=10000"
    ∷ codes "PRAGMA temp_store=MEMORY"
    ∷ codes "PRAGMA cache_size=-64000"
    ∷ codes "PRAGMA mmap_size=268435456"
    ∷ []

-- The loop over the pragmas, from position `i`: the ones that were set, and the one that failed.
unfoldable pub set_pragmas : (ℕ → Bool) → ℕ → List Text → List Text × Option Text
set_pragmas f i [] = ([], none)
set_pragmas f i (p ∷ ps) =
    let rest = set_pragmas f (i + 1) ps in if f i then ([], some p) else (p ∷ rest.0, rest.1)

unfoldable pub close : Database → Database
close d = record d { handles = d.handles - 1 }

abbrev pub initialized : Result (Unit {0}) × Schema → Database → Option OpenError × Database
initialized (ok u, s) d = (none, record d { schema = s })
initialized (err e, s) d = (some (schema_failed e), close (record d { schema = s }))

abbrev pub tuned :
    Codec → OpenFaults → List Text × Option Text → Database → Option OpenError × Database
tuned c f (done, some p) d = (some (pragma_failed p), close (record d { pragmas_set = done }))
tuned c f (done, none) d =
    initialized (migrate_schema c f.creates f.reads f.migration d.schema)
      (record d { pragmas_set = done })

-- `none` is the store; an error closes the handle where there is one.
unfoldable pub new_sqlite_storage :
    Codec → OpenFaults → Text → Database → Option OpenError × Database
unfolding set_pragmas close migrate_schema
new_sqlite_storage c f path d =
    if not (has_prefix path (codes "file:")) && f.mkdir
    then (some mkdir_failed, d)
    else if f.opens
    then (some open_failed, d)
    else tuned c f (set_pragmas f.pragma 0 pragmas) (record d { handles = suc d.handles })

-- DBSize, with what the two pragmas answer.
unfoldable pub db_size : Option ℕ → Option ℕ → Option ℤ
db_size none page_size = none
db_size (some page_count) none = none
db_size (some page_count) (some page_size) = some (wrap_int64 (page_count * page_size))
