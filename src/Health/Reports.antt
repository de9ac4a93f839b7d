-- ===== src/Health/Reports.antt =====
-- What the health endpoint answers after an update, and when the uploader counts as healthy.
use tidewatch.Base.{
  ◌≡◌, refl, ap, ◌∙◌, Bool, true, false, Option, none, some, Text, lookup, insert,
  lookup-insert_self,
}
use tidewatch.Base.Int.{ℤ}
use tidewatch.Health.Checker.{status_error, is_error, ComponentStatus, Checker, update_component}
use tidewatch.Health.Overall.{
  is_collector, has_error, calculate_overall_status, get_report, health_code, readiness_code,
}
use tidewatch.Health.Worst.{worst_status, lookup-other_fails, calculate_overall_status-worst_status}

-- Once a component other than a collector is updated to `error`, the health endpoint and the readiness
-- endpoint both answer 503, whatever the other components are.
pub update_component-unavailable :
    (now later : ℤ) (name : Text) (s : ComponentStatus) (c : Checker)
    → is_collector name ≡ false
    → s.status ≡ status_error
    → (health_code (get_report later (update_component now name s c)) ≡ 503)
      × (readiness_code (get_report later (update_component now name s c)) ≡ 503)
unfolding health_code readiness_code get_report update_component
update_component-unavailable now later name s c other bad =
    let after = insert name (record s { timestamp = now }) c.components in
    let shown : has_error (lookup name after) ≡ true =
      ap has_error (lookup-insert_self name _ c.components)
      ∙ (unfold has_error in ap is_error bad) in
    let down : calculate_overall_status after ≡ status_error =
      calculate_overall_status-worst_status after
      ∙ (unfold worst_status in rw (lookup-other_fails name after other shown) refl) in
    rw down (refl, refl)

-- Some text: an error was returned.
abbrev pub is_some : Option Text → Bool
is_some none = false
is_some (some e) = true
