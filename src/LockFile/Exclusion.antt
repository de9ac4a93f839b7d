-- ===== src/LockFile/Exclusion.antt =====
-- Processes that take and release the lock file in any order.
use tidewatch.Base.{
  ℕ, suc, ◌<◌, ◌≡◌, refl, zero, inl, inr, Option, none, some, Bool, false, List, [], ◌∷◌, Text,
  arith, Bool-cases, Option-cases,
}
use tidewatch.Uploader.Chunks.Lines.{OnSome}
use tidewatch.LockFile.{
  LockState, Lock, LockFaults, Acquired, acquired, refused, acquire, lock_file, release, let_go,
  write_pid, held_by,
}

-- A process calls Acquire, or one that holds a lock calls Release at the end of main, or is killed.
-- Either way its descriptor is closed as it ends.
pub data LockTurn : Type 0 where
  acquires : LockFaults → Text → ℕ → LockTurn
  releases : ℕ → Bool → Bool → LockTurn
  dies : ℕ → LockTurn

-- The kernel's state and the locks of the processes for which Acquire returned.
pub record World : Type 0 where
  pub kernel : LockState
  pub holding : List Lock

unfoldable pub taken_out : ℕ → List Lock → Option (Lock × List Lock)
taken_out n [] = none
taken_out zero (l ∷ ls) = some (l, ls)
taken_out (suc n) (l ∷ ls) = elim (taken_out n ls) [ none ↦ none | some p ↦ some (p.0, l ∷ p.1) ]

unfoldable pub joined : List Lock → Acquired × LockState → World
joined ls (acquired l, k) = record { kernel = k; holding = l ∷ ls }
joined ls (refused e, k) = record { kernel = k; holding = ls }

unfoldable pub closed : Lock → LockState → LockState
closed l k = elim l.file [ none ↦ k | some fd ↦ let_go fd k ]

-- A process gives its lock up, which changes the kernel's state.
abbrev pub given_up : World → (Lock → LockState) → Option (Lock × List Lock) → World
given_up w change none = w
given_up w change (some p) = record { kernel = change p.0; holding = p.1 }

unfoldable pub take_lock_turn : World → LockTurn → World
take_lock_turn w (acquires f path pid) = joined w.holding (acquire f path pid w.kernel)
take_lock_turn w (releases n unlocks closes) =
    given_up w (λ l. closed l (release unlocks closes l w.kernel).1) (taken_out n w.holding)
take_lock_turn w (dies n) = given_up w (λ l. closed l w.kernel) (taken_out n w.holding)

unfoldable pub take_lock_turns : World → List LockTurn → World
unfolding take_lock_turn
take_lock_turns w [] = w
take_lock_turns w (t ∷ ts) = take_lock_turns (take_lock_turn w t) ts

-- At most one process holds the lock, and then the kernel's lock is that of its description.
pub data IsExclusive (k : LockState) : List Lock → Type 0 where
  nobody : IsExclusive k []
  somebody :
      (l : Lock) (fd : ℕ)
      → l.file ≡ some fd
      → k.holder ≡ some fd
      → fd < k.opened
      → IsExclusive k (l ∷ [])

abbrev IsExclusiveIn : World → Type 0
IsExclusiveIn w = IsExclusive w.kernel w.holding

-- Letting go of a newer description leaves the lock where it is.
let_go_other : (h fd : ℕ) (k : LockState) → k.holder ≡ some h → h < fd → let_go fd k ≡ k
unfolding let_go
let_go_other h fd k e lt =
    let other : held_by k.holder fd ≡ false = rw e (ground arith) in rw other refl

-- With the lock held, writing the PID ends in a lock or lets go.
write_pid-IsExclusive :
    (f : LockFaults) (path : Text) (pid fd : ℕ) (k : LockState)
    → k.holder ≡ some fd
    → fd < k.opened
    → IsExclusiveIn (joined [] (write_pid f path pid fd k))
unfolding write_pid joined
write_pid-IsExclusive f path pid fd k e lt = elim (Bool-cases f.truncates) [
  | inl a ↦ rw a nobody
  | inr a ↦ rw a (elim (Bool-cases f.seeks) [
    | inl b ↦ rw b nobody
    | inr b ↦ rw b (elim (Bool-cases f.writes) [
      | inl c ↦ rw c nobody
      | inr c ↦ rw c (elim (Bool-cases f.syncs) [
        | inl d ↦ rw d nobody
        | inr d ↦ rw d (somebody _ fd refl e lt)
      ])
    ])
  ])
]

lock_file-IsExclusive :
    (f : LockFaults) (path : Text) (pid : ℕ) (k : LockState) (ls : List Lock)
    → IsExclusive k ls
    → IsExclusiveIn (joined ls (lock_file f path pid k.opened (record k { opened = suc k.opened })))
unfolding lock_file joined
lock_file-IsExclusive f path pid k [] nobody = elim (Bool-cases f.flock) [
  | inl c ↦ rw c nobody
  | inr c ↦ rw c (elim (Option-cases k.holder) [
    | inl e ↦ rw e (
        write_pid-IsExclusive f path pid k.opened
          (record k { holder = some k.opened; opened = suc k.opened }) refl (omega arith))
    | inr (h, e) ↦ rw e nobody
  ])
]
lock_file-IsExclusive f path pid k (l ∷ []) (somebody _ h e held lt) = elim (Bool-cases f.flock) [
  | inl c ↦ rw c kept
  | inr c ↦ rw (c, held) kept
]
  where
    open_file : LockState
    open_file = record k { opened = suc k.opened }

    kept : IsExclusive (let_go k.opened open_file) (l ∷ [])
    kept = rw (let_go_other h k.opened open_file held lt) (somebody l h e held (omega arith))
lock_file-IsExclusive f path pid k (l ∷ (m ∷ ms)) x = elim x [ ]

acquire-IsExclusive :
    (f : LockFaults) (path : Text) (pid : ℕ) (k : LockState) (ls : List Lock)
    → IsExclusive k ls
    → IsExclusiveIn (joined ls (acquire f path pid k))
unfolding acquire joined
acquire-IsExclusive f path pid k ls x = elim (Bool-cases f.mkdir) [
  | inl a ↦ rw a x
  | inr a ↦ rw a (elim (Bool-cases f.opens) [
    | inl b ↦ rw b x
    | inr b ↦ rw b (lock_file-IsExclusive f path pid k ls x)
  ])
]

-- Once the one lock is taken out, nobody holds one.
taken_out-IsExclusive :
    (n : ℕ) (k k' : LockState) (ls : List Lock)
    → IsExclusive k ls
    → OnSome (λ p. IsExclusive k' p.1) (taken_out n ls)
unfolding taken_out
taken_out-IsExclusive n k k' [] nobody = tt
taken_out-IsExclusive zero k k' (l ∷ []) (somebody _ h e held lt) = nobody
taken_out-IsExclusive (suc n) k k' (l ∷ []) (somebody _ h e held lt) = tt
taken_out-IsExclusive n k k' (l ∷ (m ∷ ms)) x = elim x [ ]

given_up-IsExclusive :
    (w : World) (change : Lock → LockState) (o : Option (Lock × List Lock))
    → IsExclusiveIn w
    → ((k' : LockState) → OnSome (λ p. IsExclusive k' p.1) o)
    → IsExclusiveIn (given_up w change o)
given_up-IsExclusive w change none x h = x
given_up-IsExclusive w change (some p) x h = h (change p.0)

take_lock_turn-IsExclusive :
    (w : World) (t : LockTurn) → IsExclusiveIn w → IsExclusiveIn (take_lock_turn w t)
unfolding take_lock_turn
take_lock_turn-IsExclusive w (acquires f path pid) x =
    acquire-IsExclusive f path pid w.kernel w.holding x
take_lock_turn-IsExclusive w (releases n unlocks closes) x =
    given_up-IsExclusive w _ (taken_out n w.holding) x
      λ k'. taken_out-IsExclusive n w.kernel k' w.holding x
take_lock_turn-IsExclusive w (dies n) x =
    given_up-IsExclusive w _ (taken_out n w.holding) x
      λ k'. taken_out-IsExclusive n w.kernel k' w.holding x

-- The lock file admits one process: from a state in which at most one process holds a lock, and the
-- kernel's lock is then that of its open file description, any turns of Acquire, Release and death,
-- with whatever system calls failing, lead to such a state again.
pub take_lock_turns-IsExclusive :
    (w : World) (ts : List LockTurn)
    → IsExclusive w.kernel w.holding
    → IsExclusive (take_lock_turns w ts).kernel (take_lock_turns w ts).holding
unfolding take_lock_turns
take_lock_turns-IsExclusive w [] x = x
take_lock_turns-IsExclusive w (t ∷ ts) x =
    take_lock_turns-IsExclusive (take_lock_turn w t) ts (take_lock_turn-IsExclusive w t x)
