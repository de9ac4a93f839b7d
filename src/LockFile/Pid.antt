-- ===== src/LockFile/Pid.antt =====
-- ReadPID and IsProcessRunning of internal/lockfile/lockfile.go, and what Acquire leaves in the file.
use tidewatch.Base.{
  ℕ, suc, ◌^◌, ◌<◌, ◌≡◌, refl, ◌∙◌, ap, sym, inl, inr, Option, none, some, Bool, true, false, [],
  ◌∷◌, arith, Bool-cases, Option-cases, Text, if◌then◌else◌,
}
use tidewatch.Base.Int.{ℤ, pos}
use tidewatch.Base.Decimal.{format_dec}
use tidewatch.Parsing.{atoi, trim_space, is_word}
use tidewatch.Parsing.Printed.{
  atoi-format_dec, trim_space-line, is_word-format_dec, format_dec-Lacks,
}
use tidewatch.LockFile.{
  LockState, LockError, LockFaults, Acquired, acquired, refused, already_running, acquire,
  lock_file, let_go, write_pid, held_by, pid_line,
}

-- What os.ReadFile finds.
pub data FileRead : Type 0 where
  missing : FileRead
  unreadable : FileRead
  holds : Text → FileRead

pub data PidRead : Type 0 where
  pid_is : ℤ → PidRead
  read_failed : PidRead
  file_empty : PidRead
  not_a_pid : PidRead

abbrev parsed_pid : Option ℤ → PidRead
parsed_pid none = not_a_pid
parsed_pid (some pid) = pid_is pid

abbrev pid_in : Text → PidRead
pid_in [] = file_empty
pid_in (c ∷ s) = parsed_pid (atoi (c ∷ s))

unfoldable pub read_pid : FileRead → PidRead
unfolding atoi trim_space
read_pid missing = pid_is (pos 0)
read_pid unreadable = read_failed
read_pid (holds content) = pid_in (trim_space content)

-- `find` is os.FindProcess, and `signals` whether signal 0 can be sent to it.
unfoldable pub is_process_running : (ℤ → Bool) → (ℤ → Bool) → ℤ → Bool
is_process_running find signals pid = if find pid then signals pid else false

-- What a call of Acquire may do to the lock file.
pub data Outcome (path : Text) (pid : ℕ) (k : LockState) : Acquired × LockState → Type 0 where
  takes :
      (k' : LockState)
      → k.holder ≡ none
      → k'.holder ≡ some k.opened
      → read_pid (holds k'.content) ≡ pid_is (pos pid)
      → Outcome path pid k (acquired (record { path = path; file = some k.opened }), k')
  refuses :
      (e : LockError) (k' : LockState)
      → k'.holder ≡ k.holder
      → ((h : ℕ) → k.holder ≡ some h → k'.content ≡ k.content)
      → Outcome path pid k (refused e, k')

read_pid-pid_line : (pid : ℕ) → pid < 2 ^ 63 → read_pid (holds (pid_line pid)) ≡ pid_is (pos pid)
unfolding read_pid
read_pid-pid_line pid h =
    ap pid_in (trim_space-line (format_dec pid) (format_dec-Lacks pid))
    ∙ pid_in-word (format_dec pid) (is_word-format_dec pid)
    ∙ ap parsed_pid (atoi-format_dec pid h)
  where
    pid_in-word : (w : Text) → is_word w ≡ true → pid_in w ≡ parsed_pid (atoi w)
    pid_in-word [] e = cc
    pid_in-word (c ∷ w) e = refl

-- The lock goes with the description that took it.
let_go_own : (fd : ℕ) (k : LockState) → k.holder ≡ some fd → (let_go fd k).holder ≡ none
unfolding let_go
let_go_own fd k e = let own : held_by k.holder fd ≡ true = rw e (ground arith) in rw own refl

let_go_newer : (fd : ℕ) (k : LockState) → ((h : ℕ) → k.holder ≡ some h → h < fd) → let_go fd k ≡ k
unfolding let_go
let_go_newer fd k lt = elim (Option-cases k.holder) [
  | inl e ↦ let other : held_by k.holder fd ≡ false = rw e refl in rw other refl
  | inr (h, e) ↦
      let below : h < fd = lt h e in
      let other : held_by k.holder fd ≡ false = rw e (ground arith) in rw other refl
]

-- A failure after the lock was free and taken: it is free again.
gives_back :
    (path : Text) (pid : ℕ) (e : LockError) (k k' : LockState)
    → k.holder ≡ none
    → k'.holder ≡ some k.opened
    → Outcome path pid k (refused e, let_go k.opened k')
gives_back path pid e k k' free taken =
    refuses e (let_go k.opened k') (let_go_own k.opened k' taken ∙ sym free) (λ h held. absurd (cc))

write_pid-Outcome :
    (f : LockFaults) (path : Text) (pid : ℕ) (k k' : LockState)
    → pid < 2 ^ 63
    → k.holder ≡ none
    → k'.holder ≡ some k.opened
    → Outcome path pid k (write_pid f path pid k.opened k')
unfolding write_pid
write_pid-Outcome f path pid k k' small free taken = elim (Bool-cases f.truncates) [
  | inl a ↦ rw a (gives_back path pid _ k _ free taken)
  | inr a ↦ rw a (elim (Bool-cases f.seeks) [
    | inl b ↦ rw b (gives_back path pid _ k _ free taken)
    | inr b ↦ rw b (elim (Bool-cases f.writes) [
      | inl c ↦ rw c (gives_back path pid _ k _ free taken)
      | inr c ↦ rw c (elim (Bool-cases f.syncs) [
        | inl d ↦ rw d (gives_back path pid _ k _ free taken)
        | inr d ↦ rw d (takes _ free taken (read_pid-pid_line pid small))
      ])
    ])
  ])
]

-- A call that fails before it has the lock closes its own description, which is newer.
stays_out :
    (path : Text) (pid : ℕ) (e : LockError) (k : LockState)
    → ((h : ℕ) → k.holder ≡ some h → h < k.opened)
    → Outcome path pid k (refused e, let_go k.opened (record k { opened = suc k.opened }))
stays_out path pid e k lt =
    rw (let_go_newer k.opened (record k { opened = suc k.opened }) lt)
      (refuses e _ refl (λ h held. refl))

lock_file-Outcome :
    (f : LockFaults) (path : Text) (pid : ℕ) (k : LockState)
    → pid < 2 ^ 63
    → ((h : ℕ) → k.holder ≡ some h → h < k.opened)
    → Outcome path pid k (lock_file f path pid k.opened (record k { opened = suc k.opened }))
unfolding lock_file
lock_file-Outcome f path pid k small lt = elim (Bool-cases f.flock) [
  | inl a ↦ rw a (stays_out path pid _ k lt)
  | inr a ↦ rw a (by_holder k.holder refl)
]
  where
    by_holder :
        (o : Option ℕ)
        → k.holder ≡ o
        → Outcome path pid k (elim o [
          | none ↦
              write_pid f path pid k.opened
                (record k { opened = suc k.opened; holder = some k.opened })
          | some h ↦ (refused already_running, let_go k.opened (record k { opened = suc k.opened }))
        ])
    by_holder none e = write_pid-Outcome f path pid k _ small e refl
    by_holder (some h) e = stays_out path pid _ k lt

-- Acquire, whichever system call fails: it either takes a free lock, and then ReadPID gives the PID of
-- the process, or it returns an error and leaves the lock with whoever held it; where someone did, the
-- file still has what it had, so that ReadPID still gives the holder.
pub acquire-Outcome :
    (f : LockFaults) (path : Text) (pid : ℕ) (k : LockState)
    → pid < 2 ^ 63
    → ((h : ℕ) → k.holder ≡ some h → h < k.opened)
    → Outcome path pid k (acquire f path pid k)
unfolding acquire
acquire-Outcome f path pid k small lt = elim (Bool-cases f.mkdir) [
  | inl a ↦ rw a (refuses _ k refl (λ h held. refl))
  | inr a ↦ rw a (elim (Bool-cases f.opens) [
    | inl b ↦ rw b (refuses _ k refl (λ h held. refl))
    | inr b ↦ rw b (lock_file-Outcome f path pid k small lt)
  ])
]
