-- ===== src/Witnesses/LockExamples.antt =====
-- The theorems on the lock file at concrete inputs.
use tidewatch.Base.{false, none, some, arith, List, [], ◌∷◌, codes, length, ◌≡◌, refl}
use tidewatch.LockFile.{LockState, LockFaults, acquire, release}
use tidewatch.LockFile.Pid.{Outcome, acquire-Outcome}
use tidewatch.LockFile.Exclusion.{
  LockTurn, acquires, releases, World, IsExclusive, nobody, take_lock_turns, take_lock_turn,
  taken_out, joined, closed, take_lock_turns-IsExclusive,
}

abbrev all_well : LockFaults
all_well = record {
  mkdir = false;
  opens = false;
  flock = false;
  truncates = false;
  seeks = false;
  writes = false;
  written = 0;
  syncs = false;
}

abbrev unlocked : World
unlocked = record { kernel = record { holder = none; content = []; opened = 0 }; holding = [] }

-- The second process is refused while the first one runs; the third one gets the lock.
abbrev three_processes : List LockTurn
three_processes =
    acquires all_well (codes "db.lock") 10
    ∷ acquires all_well (codes "db.lock") 11
    ∷ releases 0 false false
    ∷ acquires all_well (codes "db.lock") 12
    ∷ []

take_lock_turns-IsExclusive_example :
    IsExclusive
      (take_lock_turns unlocked three_processes).kernel
      (take_lock_turns unlocked three_processes).holding
take_lock_turns-IsExclusive_example = take_lock_turns-IsExclusive unlocked three_processes nobody

still_one : length (take_lock_turns unlocked three_processes).holding ≡ 1
unfolding take_lock_turns take_lock_turn taken_out joined closed acquire release
still_one = refl

-- The first process has the lock.
abbrev locked : LockState
locked = record { holder = some 0; content = codes "10\n"; opened = 1 }

acquire-Outcome_example :
    Outcome (codes "db.lock") 11 locked (acquire all_well (codes "db.lock") 11 locked)
acquire-Outcome_example =
    acquire-Outcome all_well (codes "db.lock") 11 locked (omega arith) λ h e. ground (arith, e)
