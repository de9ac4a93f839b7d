-- ===== src/Startup/Registered.antt =====
-- The collectors that initializeCollectors registers have positive intervals.
use tidewatch.Base.{
  ℕ, suc, ◌≡◌, inl, inr, Option, none, some, true, List, [], ◌∷◌, arith, Bool-cases, Text, Dict,
  insert, text_eq, keep, All,
}
use tidewatch.Base.Int.{ℤ, pos, ltb_ℤ}
use tidewatch.Config.Types.{MetricConfig}
use tidewatch.Config.Durations.{interval_duration}
use tidewatch.Config.Sound.{HasInterval}
use tidewatch.Startup.{CollectorKind, register_all, registered, collector_of}

-- An enabled metric's interval, as IntervalDuration reads it.
abbrev Read : (Text → Option ℤ) → MetricConfig → Type 0
Read parse m = (n : ℕ) × (interval_duration parse m ≡ some (pos (suc n)))

pub enabled_metrics-Read :
    (parse : Text → Option ℤ) (ms : List MetricConfig)
    → All (HasInterval parse) ms
    → All (Read parse) (keep (λ (m : MetricConfig). m.enabled) ms)
unfolding keep interval_duration
enabled_metrics-Read parse [] h = tt
enabled_metrics-Read parse (m ∷ ms) (h, hs) = elim (Bool-cases m.enabled) [
  | inl e ↦ rw e (h e, enabled_metrics-Read parse ms hs)
  | inr e ↦ rw e (enabled_metrics-Read parse ms hs)
]

abbrev pub Timed : Text × (CollectorKind × ℤ) → Type 0
Timed e = ltb_ℤ (pos 0) e.1.1 ≡ true

insert-Timed :
    (k : Text) (v : CollectorKind × ℤ) (m : Dict (CollectorKind × ℤ))
    → ltb_ℤ (pos 0) v.1 ≡ true
    → All Timed m
    → All Timed (insert k v m)
unfolding insert
insert-Timed k v [] h t = (h, tt)
insert-Timed k v ((j, w) ∷ m) h (t, ts) = elim (Bool-cases (text_eq j k)) [
  | inl e ↦ rw e (h, ts)
  | inr e ↦ rw e (t, insert-Timed k v m h ts)
]

registered-Timed :
    (name : Text) (d : ℤ) (o : Option CollectorKind) (m : Dict (CollectorKind × ℤ))
    → ltb_ℤ (pos 0) d ≡ true
    → All Timed m
    → All Timed (registered name (some d) o m)
registered-Timed name d none m h t = t
registered-Timed name d (some kind) m h t = insert-Timed name (kind, d) m h t

pub register_all-Timed :
    (parse : Text → Option ℤ) (ms : List MetricConfig) (m : Dict (CollectorKind × ℤ))
    → All (Read parse) ms
    → All Timed m
    → All Timed (register_all parse ms m)
unfolding register_all
register_all-Timed parse [] m r t = t
register_all-Timed parse (c ∷ ms) m ((n, e), r) t =
    register_all-Timed parse ms _ r
      (rw e (registered-Timed c.name (pos (suc n)) (collector_of c.name) m (ground arith) t))
