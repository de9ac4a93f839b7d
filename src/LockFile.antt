-- ===== src/LockFile.antt =====
-- Acquire, Release and GetLockPath of internal/lockfile/lockfile.go, on one lock file.
pub mod Exclusion
pub mod Pid
use tidewatch.Base.{
  ℕ, suc, ◌+◌, Option, none, some, Bool, false, List, [], ◌∷◌, ◌++◌, Text, codes, if◌then◌else◌,
  ◌==◌, take,
}
use tidewatch.Base.Decimal.{format_dec}

-- The lock file as the kernel has it. `holder` is the open file description that has the flock,
-- `opened` counts the descriptions so far. The file is never removed, so it keeps its inode.
pub record LockState : Type 0 where
  pub holder : Option ℕ
  pub content : Text
  pub opened : ℕ

-- `path` and `file` of the source; `file` is none where it is nil.
pub record Lock : Type 0 where
  pub path : Text
  pub file : Option ℕ

pub data LockError : Type 0 where
  mkdir_failed : LockError
  open_failed : LockError
  already_running : LockError
  flock_failed : LockError
  truncate_failed : LockError
  seek_failed : LockError
  write_failed : LockError
  sync_failed : LockError
  unlock_failed : LockError
  close_failed : LockError

-- Which system calls fail; `written` is how much of the PID a failing write leaves.
pub record LockFaults : Type 0 where
  pub mkdir : Bool
  pub opens : Bool
  pub flock : Bool
  pub truncates : Bool
  pub seeks : Bool
  pub writes : Bool
  pub written : ℕ
  pub syncs : Bool

pub data Acquired : Type 0 where
  acquired : Lock → Acquired
  refused : LockError → Acquired

abbrev pub held_by : Option ℕ → ℕ → Bool
held_by none fd = false
held_by (some h) fd = h == fd

-- LOCK_UN, or the last close of an open file description: its lock is gone.
unfoldable pub let_go : ℕ → LockState → LockState
let_go fd k = if held_by k.holder fd then record k { holder = none } else k

abbrev pub pid_line : ℕ → Text
pid_line pid = format_dec pid ++ 10 ∷ []

-- From Truncate on, with the lock held by `fd`.
unfoldable pub write_pid : LockFaults → Text → ℕ → ℕ → LockState → Acquired × LockState
unfolding let_go
write_pid f path pid fd k =
    let empty = record k { content = [] } in
    let partial = record k { content = take f.written (pid_line pid) } in
    let complete = record k { content = pid_line pid } in
    if f.truncates
    then (refused truncate_failed, let_go fd k)
    else if f.seeks
    then (refused seek_failed, let_go fd empty)
    else if f.writes
    then (refused write_failed, let_go fd partial)
    else if f.syncs
    then (refused sync_failed, let_go fd complete)
    else (acquired (record { path = path; file = some fd }), complete)

-- From Flock on, with the file open as `fd`; every failure closes it.
unfoldable pub lock_file : LockFaults → Text → ℕ → ℕ → LockState → Acquired × LockState
unfolding let_go write_pid
lock_file f path pid fd k = if f.flock then (refused flock_failed, let_go fd k) else elim k.holder [
  | none ↦ write_pid f path pid fd (record k { holder = some fd })
  | some h ↦ (refused already_running, let_go fd k)
]

unfoldable pub acquire : LockFaults → Text → ℕ → LockState → Acquired × LockState
unfolding lock_file
acquire f path pid k =
    if f.mkdir
    then (refused mkdir_failed, k)
    else if f.opens
    then (refused open_failed, k)
    else lock_file f path pid k.opened (record k { opened = suc k.opened })

-- Release with a failing LOCK_UN or a failing Close.
unfoldable pub release : Bool → Bool → Lock → LockState → (Option LockError × Lock) × LockState
unfolding let_go
release unlocks closes l k = elim l.file [
  | none ↦ ((none, l), k)
  | some fd ↦
      if unlocks
      then ((some unlock_failed, l), k)
      else if closes
      then ((some close_failed, l), let_go fd k)
      else ((none, record l { file = none }), let_go fd k)
]

unfoldable pub get_lock_path : Text → Text
get_lock_path db_path = db_path ++ codes ".lock"
