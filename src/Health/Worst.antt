-- ===== src/Health/Worst.antt =====
-- What calculateOverallStatus computes, whichever order Go iterates over the map in.
use tidewatch.Base.{
  ◌+◌, ◌≤◌, ◌≡◌, refl, ap, ◌∙◌, Bool, true, false, not, ◌&&◌, ◌||◌, [], ◌∷◌, ltb, ◌==◌,
  if◌then◌else◌, take, Text, text_eq, text_eq_iff, codes, Dict, lookup, inl, inr, Perm, arith,
  Bool-cases,
}
use mathlib.Core.Logic.{∥∥₁_elim}
use mathlib.Core.List.{Permᴰ}
use tidewatch.Health.Checker.{
  Status, status_ok, status_degraded, status_error, is_error, is_degraded, ComponentStatus,
}
use tidewatch.Health.Overall.{
  Tally, is_collector, tally_one, tally, no_tally, has_error, calculate_overall_status,
}

-- The independent description: some component satisfies a test.
unfoldable pub some_component : (Text → Status → Bool) → Dict ComponentStatus → Bool
some_component p [] = false
some_component p ((name, c) ∷ cs) = p name c.status || some_component p cs

abbrev pub collects : Text → Status → Bool
collects name s = is_collector name

abbrev pub collects_well : Text → Status → Bool
collects_well name s = is_collector name && not (is_error s)

abbrev pub collector_fails : Text → Status → Bool
collector_fails name s = is_collector name && is_error s

abbrev pub other_fails : Text → Status → Bool
other_fails name s = not (is_collector name) && is_error s

abbrev pub degrades : Text → Status → Bool
degrades name s = is_degraded s

-- The system is down when a component other than a collector is, or all of its collectors; it is
-- degraded when a component is, or a collector is down.
unfoldable pub worst_status : Dict ComponentStatus → Status
worst_status cs =
    if some_component other_fails cs
      || (some_component collects cs && not (some_component collects_well cs))
    then status_error
    else if some_component degrades cs || some_component collector_fails cs
    then status_degraded
    else status_ok

-- what the loop has counted at its end, from any counts
pub record Counted (cs : Dict ComponentStatus) (t t' : Tally) : Type 0 where
  pub errors_le : t'.collector_errors + t.collectors ≤ t'.collectors + t.collector_errors
  pub all_iff :
      ((t'.collector_errors + t.collectors) == (t'.collectors + t.collector_errors))
      ≡ not (some_component collects_well cs)
  pub any_collector : ltb t.collectors t'.collectors ≡ some_component collects cs
  pub any_error : ltb t.collector_errors t'.collector_errors ≡ some_component collector_fails cs
  pub more : t.collectors ≤ t'.collectors
  pub more_errors : t.collector_errors ≤ t'.collector_errors
  pub other : t'.has_other_error ≡ (t.has_other_error || some_component other_fails cs)
  pub degraded : t'.has_degraded ≡ (t.has_degraded || some_component degrades cs)

tally-Counted : (cs : Dict ComponentStatus) (t : Tally) → Counted cs t (tally cs t)
unfolding tally tally_one some_component
tally-Counted [] t = record {
  errors_le = omega arith;
  all_iff = ground arith;
  any_collector = ground arith;
  any_error = ground arith;
  more = omega arith;
  more_errors = omega arith;
  other = ground arith;
  degraded = ground arith;
}
tally-Counted ((name, c) ∷ cs) t =
    let k = tally-Counted cs (tally_one name c.status t) in
    record {
      errors_le = ground (arith, k.errors_le, k.more, k.more_errors);
      all_iff = ground (arith, k.errors_le, k.all_iff, k.more, k.more_errors);
      any_collector = ground (arith, k.any_collector, k.more);
      any_error = ground (arith, k.any_error, k.more_errors);
      more = ground (arith, k.more);
      more_errors = ground (arith, k.more_errors);
      other = ground (arith, k.other);
      degraded = ground (arith, k.degraded);
    }

-- A component that is no collector and is in error shows among them all.
pub lookup-other_fails :
    (key : Text) (cs : Dict ComponentStatus)
    → is_collector key ≡ false
    → has_error (lookup key cs) ≡ true
    → some_component other_fails cs ≡ true
unfolding lookup has_error some_component
lookup-other_fails key [] h e = cc
lookup-other_fails key ((name, c) ∷ cs) h e = elim (Bool-cases (text_eq name key)) [
  | inl q ↦
      let same : name ≡ key = (text_eq_iff name key).0 q in
      let other : is_collector name ≡ false = ap is_collector same ∙ h in
      let bad : is_error c.status ≡ true = ground (arith, q, e) in rw (other, bad) refl
  | inr q ↦
      let rest : some_component other_fails cs ≡ true =
        lookup-other_fails key cs h (ground (arith, q, e)) in
      ground (arith, rest)
]

uploader_is_other : is_collector (codes "uploader") ≡ false
unfolding is_collector take text_eq
uploader_is_other = refl

storage_is_other : is_collector (codes "storage") ≡ false
unfolding is_collector take text_eq
storage_is_other = refl

-- calculateOverallStatus is `error` exactly where a component other than a collector is in error or
-- all collectors are (and there is one), and else `degraded` exactly where a component is degraded or
-- a collector is in error. So its separate tests of the uploader and the storage change nothing.
pub calculate_overall_status-worst_status :
    (cs : Dict ComponentStatus) → calculate_overall_status cs ≡ worst_status cs
unfolding calculate_overall_status worst_status some_component
calculate_overall_status-worst_status [] = refl
calculate_overall_status-worst_status (c ∷ cs) =
    let k = tally-Counted (c ∷ cs) no_tally in
    ground (
      arith,
      k.errors_le,
      k.all_iff,
      k.any_collector,
      k.any_error,
      k.other,
      k.degraded,
      lookup-other_fails (codes "uploader") (c ∷ cs) uploader_is_other,
      lookup-other_fails (codes "storage") (c ∷ cs) storage_is_other,
    )

or_swap : (a b c : Bool) → (a || (b || c)) ≡ (b || (a || c))
or_swap a b c = ground arith

some_component-permᴰ :
    (p : Text → Status → Bool) {cs ds : Dict ComponentStatus}
    → Permᴰ cs ds
    → some_component p cs ≡ some_component p ds
unfolding some_component
some_component-permᴰ p Permᴰ.nil = refl
some_component-permᴰ p (Permᴰ.cons e d) =
    (λ i. p (e i).0 (e i).1.status || some_component-permᴰ p d i)
some_component-permᴰ p (Permᴰ.swap {a} {b} {a'} {b'} {l} e e') =
    or_swap (p a.0 a.1.status) (p b.0 b.1.status) (some_component p l)
    ∙ (λ i. p (e' i).0 (e' i).1.status || (p (e i).0 (e i).1.status || some_component p l))
some_component-permᴰ p (Permᴰ.trans d d') = some_component-permᴰ p d ∙ some_component-permᴰ p d'

some_component-perm :
    (p : Text → Status → Bool) {cs ds : Dict ComponentStatus}
    → Perm cs ds
    → some_component p cs ≡ some_component p ds
some_component-perm p q = ∥∥₁_elim q (hlevel) (some_component-permᴰ p)

-- calculateOverallStatus does not depend on the order in which Go iterates over the components.
pub calculate_overall_status-perm :
    {cs ds : Dict ComponentStatus}
    → Perm cs ds
    → calculate_overall_status cs ≡ calculate_overall_status ds
unfolding worst_status
calculate_overall_status-perm {cs} {ds} p =
    rw
      (
        calculate_overall_status-worst_status cs,
        calculate_overall_status-worst_status ds,
        some_component-perm other_fails p,
        some_component-perm collects p,
        some_component-perm collects_well p,
        some_component-perm degrades p,
        some_component-perm collector_fails p,
      )
      refl
