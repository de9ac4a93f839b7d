-- ===== src/Storage/Wal.antt =====
-- CheckpointWAL, GetWALSize, performCheckpoint and the WAL checkpoint routine of
-- internal/storage/storage.go. The routine's goroutine is a state that its events change.
pub mod Bounded
use tidewatch.Base.{
  ℕ, ◌+◌, ◌-◌, ◌*◌, Option, none, some, Bool, true, false, List, [], ◌∷◌, ◌++◌, ltb, ◌==◌,
  if◌then◌else◌,
}
use tidewatch.Storage.Codec.{Result, ok, err, Error, query_failed, fail_if, ◌>>=◌, ◌>>◌}

-- A WAL file of so many bytes, or none.
abbrev pub WalFile : Type 0
WalFile = Option ℕ

abbrev pub wal_bytes : WalFile → ℕ
wal_bytes none = 0
wal_bytes (some n) = n

pub record SizeFaults : Type 0 where
  pub query : Bool
  pub stat : Bool

unfoldable pub get_wal_size : SizeFaults → WalFile → Result ℕ
get_wal_size f none = do fail_if f.query query_failed; ok 0
get_wal_size f (some n) = do fail_if f.query query_failed; fail_if f.stat query_failed; ok n

-- A checkpoint that another connection's reader blocks reports no error to Exec, and truncates nothing.
pub record CheckpointFaults : Type 0 where
  pub before : SizeFaults
  pub exec : Bool
  pub blocked : Bool
  pub after : SizeFaults

unfoldable pub checkpoint_wal : CheckpointFaults → WalFile → Result (Unit {0}) × WalFile
checkpoint_wal f none = (fail_if f.exec query_failed, none)
checkpoint_wal f (some n) =
    if f.exec then (err query_failed, some n) else (ok tt, some (if f.blocked then n else 0))

pub data Reason : Type 0 where
  startup_size_triggered : Reason
  periodic : Reason
  size_triggered : Reason

-- What performCheckpoint logs.
pub data Report : Type 0 where
  size_unknown : Report
  checkpoint_failed : Report
  completed : (before after reclaimed : ℕ) → Report

abbrev or_zero_bytes : Result ℕ → ℕ
or_zero_bytes (ok n) = n
or_zero_bytes (err e) = 0

-- `-` stops at 0, as `if bytesReclaimed < 0` makes it.
abbrev pub logged : CheckpointFaults → ℕ → Result (Unit {0}) × WalFile → Report × WalFile
logged f before (err e, w) = (checkpoint_failed, w)
logged f before (ok u, w) =
    let after = or_zero_bytes (get_wal_size f.after w) in
    (completed before after (before - after), w)

abbrev pub size_read : CheckpointFaults → WalFile → Result ℕ → Report × WalFile
size_read f w (err e) = (size_unknown, w)
size_read f w (ok before) = logged f before (checkpoint_wal f w)

unfoldable pub perform_checkpoint : CheckpointFaults → WalFile → Report × WalFile
unfolding get_wal_size checkpoint_wal
perform_checkpoint f w = size_read f w (get_wal_size f.before w)

-- The arguments of startWALCheckpointRoutineWithSizeInterval, in nanoseconds and bytes.
pub record WalSettings : Type 0 where
  pub checkpoint_interval : ℕ
  pub max_wal_size : ℕ
  pub size_check_interval : ℕ

abbrev pub or_default : ℕ → ℕ → ℕ
or_default n otherwise = if n == 0 then otherwise else n

unfoldable pub with_defaults : WalSettings → WalSettings
with_defaults s = record {
  checkpoint_interval = or_default s.checkpoint_interval (3600 * 1000000000);
  max_wal_size = or_default s.max_wal_size (64 * 1024 * 1024);
  size_check_interval = or_default s.size_check_interval (30 * 1000000000);
}

pub record WalRoutine : Type 0 where
  pub settings : WalSettings
  pub running : Bool
  pub wal : WalFile
  pub checkpoints : List (Reason × Report)

unfoldable pub perform : Reason → CheckpointFaults → WalRoutine → WalRoutine
unfolding perform_checkpoint
perform reason f r =
    let done = perform_checkpoint f r.wal in
    record r { wal = done.1; checkpoints = r.checkpoints ++ (reason, done.0) ∷ [] }

-- A size that cannot be read is only logged.
abbrev pub judged : Reason → CheckpointFaults → WalRoutine → Result ℕ → WalRoutine
judged reason f r (err e) = r
judged reason f r (ok size) = if ltb r.settings.max_wal_size size then perform reason f r else r

unfoldable pub check_size : Reason → SizeFaults → CheckpointFaults → WalRoutine → WalRoutine
unfolding get_wal_size perform
check_size reason g f r = judged reason f r (get_wal_size g r.wal)

-- What happens to the routine: its tickers fire, its context is done, or someone writes to the WAL.
pub data WalEvent : Type 0 where
  ticks : CheckpointFaults → WalEvent
  size_ticks : SizeFaults → CheckpointFaults → WalEvent
  is_done : WalEvent
  grows : ℕ → WalEvent

unfoldable pub on_wal_event : WalEvent → WalRoutine → WalRoutine
unfolding perform check_size
on_wal_event (ticks f) r = if r.running then perform periodic f r else r
on_wal_event (size_ticks g f) r = if r.running then check_size size_triggered g f r else r
on_wal_event is_done r = record r { running = false }
on_wal_event (grows n) r = record r { wal = some (wal_bytes r.wal + n) }

unfoldable pub on_wal_events : List WalEvent → WalRoutine → WalRoutine
unfolding on_wal_event
on_wal_events [] r = r
on_wal_events (e ∷ es) r = on_wal_events es (on_wal_event e r)

-- The goroutine up to its loop.
unfoldable pub start_wal_checkpoint_routine :
    WalSettings → SizeFaults → CheckpointFaults → WalFile → WalRoutine
unfolding with_defaults check_size
start_wal_checkpoint_routine s g f w =
    check_size startup_size_triggered g f
      (record { settings = with_defaults s; running = true; wal = w; checkpoints = [] })
