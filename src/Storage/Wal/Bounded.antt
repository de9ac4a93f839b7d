-- ===== src/Storage/Wal/Bounded.antt =====
-- How large the WAL can grow while the checkpoint routine runs.
use tidewatch.Base.{
  ℕ, ◌+◌, ◌*◌, ◌≤◌, ◌≡◌, refl, inl, inr, none, some, true, false, List, [], ◌∷◌, arith, ltb,
  Bool-cases,
}
use tidewatch.Storage.Codec.{ok, Result-cases}
use tidewatch.Storage.Wal.{
  WalFile, wal_bytes, SizeFaults, CheckpointFaults, WalSettings, WalRoutine, WalEvent, ticks,
  Reason, size_ticks, is_done, grows, get_wal_size, checkpoint_wal, perform_checkpoint, perform,
  check_size, on_wal_event, on_wal_events, start_wal_checkpoint_routine, periodic, size_triggered,
  startup_size_triggered, or_default, with_defaults,
}

-- The size is read, and a checkpoint is neither refused nor blocked.
pub record Works (g : SizeFaults) (f : CheckpointFaults) : Type 0 where
  pub query : g.query ≡ false
  pub stat : g.stat ≡ false
  pub before_query : f.before.query ≡ false
  pub before_stat : f.before.stat ≡ false
  pub exec : f.exec ≡ false
  pub unblocked : f.blocked ≡ false

perform_checkpoint-le :
    (f : CheckpointFaults) (w : WalFile) → wal_bytes (perform_checkpoint f w).1 ≤ wal_bytes w
unfolding perform_checkpoint get_wal_size checkpoint_wal
perform_checkpoint-le f none = ground arith
perform_checkpoint-le f (some n) = ground arith

perform_checkpoint-empties :
    (g : SizeFaults) (f : CheckpointFaults) (w : WalFile)
    → Works g f
    → wal_bytes (perform_checkpoint f w).1 ≡ 0
unfolding perform_checkpoint get_wal_size checkpoint_wal
perform_checkpoint-empties g f none h = rw (h.before_query, h.exec)
perform_checkpoint-empties g f (some n) h = rw (h.before_query, h.before_stat, h.exec, h.unblocked)

get_wal_size-Works :
    (g : SizeFaults) (f : CheckpointFaults) (w : WalFile)
    → Works g f
    → get_wal_size g w ≡ ok (wal_bytes w)
unfolding get_wal_size
get_wal_size-Works g f none h = rw h.query
get_wal_size-Works g f (some n) h = rw (h.query, h.stat)

-- A size check that works leaves at most the threshold.
check_size-le :
    (reason : Reason) (g : SizeFaults) (f : CheckpointFaults) (r : WalRoutine)
    → Works g f
    → wal_bytes (check_size reason g f r).wal ≤ r.settings.max_wal_size
unfolding check_size perform
check_size-le reason g f r h =
    rw (get_wal_size-Works g f r.wal h)
      (elim (Bool-cases (ltb r.settings.max_wal_size (wal_bytes r.wal))) [
        | inl e ↦ rw (e, perform_checkpoint-empties g f r.wal h) (omega arith)
        | inr e ↦ rw e (ground arith)
      ])

-- Every size check works, at most `g` bytes are written between two of them, `used` of them so far, and
-- the routine's context is not done.
unfoldable pub Paced : ℕ → ℕ → List WalEvent → Type 0
Paced g used [] = Unit
Paced g used (ticks f ∷ es) = Paced g used es
Paced g used (size_ticks q f ∷ es) = Works q f × Paced g 0 es
Paced g used (is_done ∷ es) = ⊥
Paced g used (grows n ∷ es) = (used + n ≤ g) × Paced g (used + n) es

-- The routine runs with this threshold.
record IsWatching (max : ℕ) (r : WalRoutine) : Type 0 where
  running : r.running ≡ true
  threshold : r.settings.max_wal_size ≡ max

check_size-IsWatching :
    (max : ℕ) (reason : Reason) (g : SizeFaults) (f : CheckpointFaults) (r : WalRoutine)
    → IsWatching max r
    → IsWatching max (check_size reason g f r)
unfolding check_size perform
check_size-IsWatching max reason g f r w = elim (Result-cases (get_wal_size g r.wal)) [
  | inl (n, e) ↦ rw e (elim (Bool-cases (ltb r.settings.max_wal_size n)) [
    | inl h ↦ rw h (record { running = w.running; threshold = w.threshold })
    | inr h ↦ rw h w
  ])
  | inr (x, e) ↦ rw e w
]

on_wal_event-ticks :
    (f : CheckpointFaults) (r : WalRoutine)
    → r.running ≡ true
    → on_wal_event (ticks f) r ≡ perform periodic f r
unfolding on_wal_event
on_wal_event-ticks f r e = ground arith

on_wal_event-size_ticks :
    (g : SizeFaults) (f : CheckpointFaults) (r : WalRoutine)
    → r.running ≡ true
    → on_wal_event (size_ticks g f) r ≡ check_size size_triggered g f r
unfolding on_wal_event
on_wal_event-size_ticks g f r e = ground arith

-- The routine runs with this threshold, and the WAL exceeds it by no more than what was written since.
record IsBounded (max used : ℕ) (r : WalRoutine) : Type 0 where
  watching : IsWatching max r
  bounded : wal_bytes r.wal ≤ max + used

ticks-IsBounded :
    (max used : ℕ) (f : CheckpointFaults) (r : WalRoutine)
    → IsBounded max used r
    → IsBounded max used (on_wal_event (ticks f) r)
ticks-IsBounded max used f r b = rw (on_wal_event-ticks f r b.watching.running) (
    unfold perform in
    record {
      watching = record { running = b.watching.running; threshold = b.watching.threshold };
      bounded = omega (arith, perform_checkpoint-le f r.wal, b.bounded);
    })

grows-IsBounded :
    (max used n : ℕ) (r : WalRoutine)
    → IsBounded max used r
    → IsBounded max (used + n) (on_wal_event (grows n) r)
unfolding on_wal_event
grows-IsBounded max used n r b = record {
  watching = record { running = b.watching.running; threshold = b.watching.threshold };
  bounded = omega (arith, b.bounded);
}

check_size-IsBounded :
    (max : ℕ) (reason : Reason) (g : SizeFaults) (f : CheckpointFaults) (r : WalRoutine)
    → Works g f
    → IsWatching max r
    → IsBounded max 0 (check_size reason g f r)
check_size-IsBounded max reason g f r works w = record {
  watching = check_size-IsWatching max reason g f r w;
  bounded = omega (arith, check_size-le reason g f r works, w.threshold);
}

on_wal_events-le :
    (max g used : ℕ) (es : List WalEvent) (r : WalRoutine)
    → Paced g used es
    → used ≤ g
    → IsBounded max used r
    → wal_bytes (on_wal_events es r).wal ≤ max + g
unfolding on_wal_events Paced
on_wal_events-le max g used [] r p u b = omega (arith, b.bounded)
on_wal_events-le max g used (ticks f ∷ es) r p u b =
    on_wal_events-le max g used es (on_wal_event (ticks f) r) p u (ticks-IsBounded max used f r b)
on_wal_events-le max g used (size_ticks q f ∷ es) r (works, p) u b =
    on_wal_events-le max g 0 es (on_wal_event (size_ticks q f) r) p (omega arith) (
      rw (on_wal_event-size_ticks q f r b.watching.running)
        (check_size-IsBounded max size_triggered q f r works b.watching))
on_wal_events-le max g used (is_done ∷ es) r p u b = absurd p
on_wal_events-le max g used (grows n ∷ es) r (fits, p) u b =
    on_wal_events-le max g (used + n) es (on_wal_event (grows n) r) p fits
      (grows-IsBounded max used n r b)

-- However large the WAL is when the checkpoint routine starts: where every size check works, the one at
-- the start included, and at most g bytes are written between two size checks, the WAL never exceeds
-- the threshold by more than g bytes, whatever becomes of the periodic checkpoints. The threshold is
-- 64 MB where none is set.
pub start_wal_checkpoint_routine-le :
    (s : WalSettings) (q : SizeFaults) (f : CheckpointFaults) (w : WalFile) (g : ℕ)
    (es : List WalEvent)
    → Works q f
    → Paced g 0 es
    → wal_bytes (on_wal_events es (start_wal_checkpoint_routine s q f w)).wal
      ≤ or_default s.max_wal_size (64 * 1024 * 1024) + g
unfolding start_wal_checkpoint_routine with_defaults
start_wal_checkpoint_routine-le s q f w g es works p =
    on_wal_events-le (or_default s.max_wal_size (64 * 1024 * 1024)) g 0 es
      (check_size startup_size_triggered q f fresh) p (omega arith)
      (check_size-IsBounded _ startup_size_triggered q f fresh works
        (record { running = refl; threshold = refl }))
  where
    fresh : WalRoutine
    fresh = record { settings = with_defaults s; running = true; wal = w; checkpoints = [] }
