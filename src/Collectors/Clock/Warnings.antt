-- ===== src/Collectors/Clock/Warnings.antt =====
-- When the clock collector warns.
use tidewatch.Base.{
  ℕ, ◌-◌, ◌≤◌, ◌<◌, ◌≡◌, refl, subst, inl, inr, Option, none, some, true, false, List, [], ◌∷◌, ltb,
  if◌then◌else◌, Bool-cases, arith,
}
use tidewatch.Base.Int.{ℤ, ◌-ℤ◌}
use tidewatch.Models.{Float64}
use tidewatch.Monitoring.ClockSkew.{
  Measured, measured, failed, quotient, local_estimate, millisecond, server_time,
}
use tidewatch.Collectors.Clock.{
  ClockCheck, ClockSkewCollector, ClockWarning, collect_clock, skew_measured, warn_if,
  clock_request, has_url, hour, is_hour_ago, magnitude,
}

-- What a check found: the time, and the skew in milliseconds where there is one.
pub record Finding : Type 0 where
  pub at : ℕ
  pub skew_ms : Option ℤ
  pub warning : Option ClockWarning

found : Measured ℤ → ClockCheck → Option ℤ
found (failed e) k = none
found (measured t) k = some (quotient (local_estimate k.exchange -ℤ t) millisecond)

-- The skew by which a check is judged, from the server's answer.
pub skew_found : ClockCheck → ClockSkewCollector → Option ℤ
unfolding found
skew_found k c =
    if has_url c.clock_skew_url then found (server_time k.exchange (clock_request c)) k else none

-- The checks of the loop, one after the other.
pub findings : (ℤ → Float64) → List ClockCheck → ClockSkewCollector → List Finding
findings to_float [] c = []
findings to_float (k ∷ ks) c =
    let done = collect_clock to_float k c in
    record { at = k.now; skew_ms = skew_found k c; warning = done.warning }
    ∷ findings to_float ks done.collector

-- A skew that is above the threshold.
pub Exceeds : ℕ → Option ℤ → Type 0
Exceeds threshold none = ⊥
Exceeds threshold (some n) = threshold < magnitude n

-- The last warning is more than an hour old, or there was none; or it is at most an hour old.
pub IsOld : Option ℕ → ℕ → Type 0
IsOld none now = Unit
IsOld (some t) now = hour < now - t

pub IsRecent : Option ℕ → ℕ → Type 0
IsRecent none now = ⊥
IsRecent (some t) now = now - t ≤ hour

pub IsDue : ℕ → Option ℕ → Finding → Type 0
IsDue threshold last f = Exceeds threshold f.skew_ms × IsOld last f.at

pub later : Option ClockWarning → Option ℕ → ℕ → Option ℕ
later none last now = last
later (some w) last now = some now

pub HasReason : ℕ → Option ℕ → Finding → Option ClockWarning → Type 0
HasReason threshold last f none = Exceeds threshold f.skew_ms → IsRecent last f.at
HasReason threshold last f (some w) = IsDue threshold last f

pub IsRegular : ℕ → Option ℕ → List Finding → Type 0
IsRegular threshold last [] = Unit
IsRegular threshold last (f ∷ fs) =
    HasReason threshold last f f.warning × IsRegular threshold (later f.warning last f.at) fs

IsOld-is_hour_ago : (last : Option ℕ) (now : ℕ) → is_hour_ago last now ≡ true → IsOld last now
unfolding IsOld
IsOld-is_hour_ago none now h = tt
IsOld-is_hour_ago (some t) now h = ground arith

IsRecent-is_hour_ago :
    (last : Option ℕ) (now : ℕ) → is_hour_ago last now ≡ false → IsRecent last now
unfolding IsRecent
IsRecent-is_hour_ago none now h = cc
IsRecent-is_hour_ago (some t) now h = ground arith

-- One check: a warning has its reason, and the collector notes when it was.
record IsNoted (k : ℕ) (skew : Option ℤ) (w : Option ClockWarning) (c c' : ClockSkewCollector)
    : Type 0 where
  reason :
      HasReason c.warn_threshold_ms c.last_warning
        (record { at = k; skew_ms = skew; warning = w })
        w
  noted : c'.last_warning ≡ later w c.last_warning k
  threshold : c'.warn_threshold_ms ≡ c.warn_threshold_ms

warn_if-IsNoted :
    (now : ℕ) (n : ℤ) (c : ClockSkewCollector)
    → IsNoted now (some n) (warn_if now n c).0 c (warn_if now n c).1
unfolding warn_if HasReason Exceeds IsDue later
warn_if-IsNoted now n c = elim (Bool-cases (ltb c.warn_threshold_ms (magnitude n))) [
  | inr small ↦
      rw small (record { reason = λ h. absurd (ground arith); noted = refl; threshold = refl })
  | inl large ↦ elim (Bool-cases (is_hour_ago c.last_warning now)) [
    | inl old ↦
        rw (large, old)
          (record {
            reason = (ground arith, IsOld-is_hour_ago c.last_warning now old);
            noted = refl;
            threshold = refl;
          })
    | inr new ↦
        rw (large, new)
          (record {
            reason = λ h. IsRecent-is_hour_ago c.last_warning now new;
            noted = refl;
            threshold = refl;
          })
  ]
]

nothing-IsNoted : (now : ℕ) (c : ClockSkewCollector) → IsNoted now none none c c
unfolding HasReason Exceeds later
nothing-IsNoted now c = record { reason = λ h. absurd h; noted = refl; threshold = refl }

skew_measured-IsNoted :
    (to_float : ℤ → Float64) (k : ClockCheck) (c : ClockSkewCollector) (m : Measured ℤ)
    → IsNoted k.now
        (found m k)
        (skew_measured to_float k c m).warning
        c
        (skew_measured to_float k c m).collector
unfolding skew_measured found
skew_measured-IsNoted to_float k c (failed e) = nothing-IsNoted k.now c
skew_measured-IsNoted to_float k c (measured t) =
    let step = warn_if-IsNoted k.now (quotient (local_estimate k.exchange -ℤ t) millisecond) c in
    record { reason = step.reason; noted = step.noted; threshold = step.threshold }

collect_clock-IsNoted :
    (to_float : ℤ → Float64) (k : ClockCheck) (c : ClockSkewCollector)
    → IsNoted k.now
        (skew_found k c)
        (collect_clock to_float k c).warning
        c
        (collect_clock to_float k c).collector
unfolding collect_clock skew_found
collect_clock-IsNoted to_float k c = elim (Bool-cases (has_url c.clock_skew_url)) [
  | inl e ↦ rw e (skew_measured-IsNoted to_float k c (server_time k.exchange (clock_request c)))
  | inr e ↦ rw e (nothing-IsNoted k.now c)
]

IsRegular-eq :
    (a b : ℕ) (s t : Option ℕ) (fs : List Finding)
    → a ≡ b
    → s ≡ t
    → IsRegular a s fs
    → IsRegular b t fs
IsRegular-eq a b s t fs p q h = subst (λ x. IsRegular x t fs) p (subst (λ x. IsRegular a x fs) q h)

-- Whatever checks the clock collector makes: each warning is for a skew above the threshold and more than
-- an hour after the warning before it, and a skew above the threshold goes without a warning only where
-- the last one is at most an hour old.
pub findings-IsRegular :
    (to_float : ℤ → Float64) (ks : List ClockCheck) (c : ClockSkewCollector)
    → IsRegular c.warn_threshold_ms c.last_warning (findings to_float ks c)
unfolding findings IsRegular
findings-IsRegular to_float [] c = tt
findings-IsRegular to_float (k ∷ ks) c =
    let step = collect_clock-IsNoted to_float k c in
    (
      step.reason,
      IsRegular-eq _ _ _ _ _ step.threshold step.noted
          (findings-IsRegular to_float ks (collect_clock to_float k c).collector),
    )
