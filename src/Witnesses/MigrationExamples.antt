-- ===== src/Witnesses/MigrationExamples.antt =====
-- The theorems on the migrations and the WAL routine at concrete inputs.
use tidewatch.Base.{
  ◌==◌, ℕ, ◌+◌, ◌*◌, ◌≤◌, ◌≡◌, refl, true, false, none, some, List, [], ◌∷◌, arith, codes, text_eq,
  keep, gather, insertion_sort, Text,
}
use tidewatch.Base.Int.{pos}
use tidewatch.Storage.Table.{Row}
use tidewatch.Storage.Codec.{ok}
use tidewatch.Storage.Insert.{generate_dedup_key, sorted_tags}
use tidewatch.Storage.Select.{stored_tags}
use tidewatch.Storage.Migrate.{Schema, MigrationFaults, max_version, migrate_schema}
use tidewatch.Storage.Migrate.Kept.{IsAt}
use tidewatch.Storage.Open.{OpenFaults, Database, new_sqlite_storage}
use tidewatch.Storage.Open.Handles.{Opening, new_sqlite_storage-Opening}
use tidewatch.Storage.Wal.{
  SizeFaults, CheckpointFaults, WalSettings, WalEvent, ticks, size_ticks, grows, wal_bytes,
  on_wal_events, start_wal_checkpoint_routine, or_default,
}
use tidewatch.Storage.Wal.Bounded.{Works, Paced, start_wal_checkpoint_routine-le}
use tidewatch.Witnesses.Fixtures.{codec, queue, row}

abbrev all_well : MigrationFaults
all_well = record {
  begins = false;
  exec = false;
  query = false;
  prepares = false;
  updates = λ n. false;
  rows = false;
  index = false;
  records = false;
  commits = false;
}

-- A file of version 2 with two rows that have no key yet.
abbrev old_row : ℕ → Text → Row
old_row id name = record (row id (pos 1000) name 0 none) { dedup_key = none }

abbrev old_schema : Schema
old_schema = record {
  versions = 2 ∷ 1 ∷ [];
  has_metrics = true;
  has_upload_columns = true;
  has_key_index = false;
  has_value_columns = false;
  db = record {
    rows = old_row 1 (codes "cpu.temperature") ∷ old_row 2 (codes "cpu.usage") ∷ [];
    seq = 2;
  };
}

old_schema-IsAt : IsAt 2 old_schema
unfolding max_version
old_schema-IsAt = record {
  version = refl;
  metrics = refl;
  upload_columns = refl;
  key_index = refl;
  value_columns = refl;
  unique = λ h. cc;
}

-- The third pragma fails, and the handle is closed.
abbrev open_faults : OpenFaults
open_faults = record {
  mkdir = true;
  opens = false;
  pragma = λ i. i == 2;
  creates = false;
  reads = false;
  migration = λ v. all_well;
}

abbrev database : Database
database = record { handles = 1; schema = old_schema; pragmas_set = [] }

new_sqlite_storage-Opening_example :
    Opening 2 database
      (new_sqlite_storage codec open_faults (codes "file:metrics.db") database).1
      (new_sqlite_storage codec open_faults (codes "file:metrics.db") database).0
new_sqlite_storage-Opening_example =
    new_sqlite_storage-Opening codec open_faults (codes "file:metrics.db") 2 database (omega arith)
      old_schema-IsAt

-- Without a failing pragma the migrations run.
migrated : (migrate_schema codec false false (λ v. all_well) old_schema).0 ≡ ok tt
unfolding migrate_schema keep stored_tags text_eq generate_dedup_key
migrated = refl

-- Two rows of one name, time and device cannot both have their key: the file stays at version 2.
abbrev doubled : Schema
doubled = record old_schema {
  db = record {
    rows = old_row 1 (codes "cpu.usage") ∷ old_row 2 (codes "cpu.usage") ∷ [];
    seq = 2;
  };
}

stuck : (migrate_schema codec false false (λ v. all_well) doubled).1 ≡ doubled
unfolding migrate_schema keep stored_tags text_eq generate_dedup_key gather sorted_tags
    insertion_sort
stuck = refl

abbrev current : Schema
current = record {
  versions = 4 ∷ 3 ∷ 2 ∷ 1 ∷ [];
  has_metrics = true;
  has_upload_columns = true;
  has_key_index = true;
  has_value_columns = true;
  db = queue;
}

abbrev readable : SizeFaults
readable = record { query = false; stat = false }

abbrev working : CheckpointFaults
working = record { before = readable; exec = false; blocked = false; after = readable }

abbrev refused : CheckpointFaults
refused = record working { exec = true }

works : Works readable working
works = record {
  query = refl;
  stat = refl;
  before_query = refl;
  before_stat = refl;
  exec = refl;
  unblocked = refl;
}

abbrev settings : WalSettings
settings = record { checkpoint_interval = 0; max_wal_size = 1000; size_check_interval = 0 }

-- 900 bytes, a periodic checkpoint that fails, 600 bytes, a size check that empties the WAL, 10 bytes.
abbrev wal_history : List WalEvent
wal_history = grows 900 ∷ ticks refused ∷ grows 600 ∷ size_ticks readable working ∷ grows 10 ∷ []

paced : Paced 1500 0 wal_history
unfolding Paced
paced = (omega arith, (omega arith, (works, (omega arith, tt))))

start_wal_checkpoint_routine-le_example :
    wal_bytes
      (on_wal_events wal_history
        (start_wal_checkpoint_routine settings readable working (some 5000))).wal
    ≤ or_default 1000 (64 * 1024 * 1024) + 1500
start_wal_checkpoint_routine-le_example =
    start_wal_checkpoint_routine-le settings readable working (some 5000) 1500 wal_history works
      paced
