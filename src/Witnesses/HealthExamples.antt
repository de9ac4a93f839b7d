-- ===== src/Witnesses/HealthExamples.antt =====
-- The theorems on health reports at concrete inputs.
use tidewatch.Base.{◌≡◌, refl, false, [], ◌∷◌, codes, Dict, Perm}
use mathlib.Core.List.Perm
use tidewatch.Base.Int.{ℤ, pos}
use tidewatch.Health.Checker.{
  Status, status_ok, status_error, ComponentStatus, Checker, default_thresholds, new_checker,
  update_component,
}
use tidewatch.Health.Overall.{
  is_collector, calculate_overall_status, get_report, health_code, readiness_code,
}
use tidewatch.Health.Worst.{
  worst_status, calculate_overall_status-worst_status, calculate_overall_status-perm,
}
use tidewatch.Health.Reports.{update_component-unavailable}

abbrev with_status : Status → ComponentStatus
with_status s = record { status = s; message = []; timestamp = pos 0; details = [] }

-- One of two collectors is down.
abbrev components : Dict ComponentStatus
components =
    (codes "collector.cpu", with_status status_ok)
    ∷ (codes "collector.disk", with_status status_error)
    ∷ (codes "uploader", with_status status_ok)
    ∷ []

abbrev components_moved : Dict ComponentStatus
components_moved =
    (codes "collector.disk", with_status status_error)
    ∷ (codes "collector.cpu", with_status status_ok)
    ∷ (codes "uploader", with_status status_ok)
    ∷ []

calculate_overall_status-worst_status_example :
    calculate_overall_status components ≡ worst_status components
calculate_overall_status-worst_status_example = calculate_overall_status-worst_status components

moved : Perm components components_moved
moved = Perm.swap _ _ _

calculate_overall_status-perm_example :
    calculate_overall_status components ≡ calculate_overall_status components_moved
calculate_overall_status-perm_example = calculate_overall_status-perm moved

abbrev checker : Checker
checker = record (new_checker (pos 0) default_thresholds) { components = components }

time_is_other : is_collector (codes "time") ≡ false
unfolding is_collector
time_is_other = refl

update_component-unavailable_example :
    (health_code (
        get_report
          (pos 2)
          (update_component (pos 1) (codes "time") (with_status status_error) checker))
      ≡ 503)
    × (readiness_code (
          get_report
            (pos 2)
            (update_component (pos 1) (codes "time") (with_status status_error) checker))
        ≡ 503)
update_component-unavailable_example =
    update_component-unavailable (pos 1) (pos 2) (codes "time") (with_status status_error) checker
      time_is_other refl

abbrev half_minute : ℤ
half_minute = pos 30000000000

-- the last upload was 45 seconds ago
abbrev since : ℤ
since = pos 45000000000
