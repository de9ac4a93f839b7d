-- ===== src/Health/Overall.antt =====
-- calculateOverallStatus, GetReport and the HTTP answers of internal/health/health.go.
use tidewatch.Base.{
  ℕ, ◌+◌, Bool, false, ◌&&◌, ◌||◌, Option, none, some, [], ◌∷◌, ltb, leb, ◌==◌, if◌then◌else◌,
  length, take, Text, text_eq, codes, Dict, lookup,
}
use tidewatch.Base.Int.{ℤ, ◌-ℤ◌}
use tidewatch.Health.Checker.{
  Status, status_ok, status_degraded, status_error, is_error, is_degraded, ComponentStatus, Checker,
}

-- The counters and flags of the loop.
pub record Tally : Type 0 where
  pub collector_errors : ℕ
  pub collectors : ℕ
  pub has_other_error : Bool
  pub has_degraded : Bool

-- len(name) >= 10 && name[:10] == "collector."
unfoldable pub is_collector : Text → Bool
is_collector name = leb 10 (length name) && text_eq (take 10 name) (codes "collector.")

unfoldable pub tally_one : Text → Status → Tally → Tally
unfolding is_collector
tally_one name s t =
    let degraded = t.has_degraded || is_degraded s in
    if is_collector name
    then record t {
      collectors = t.collectors + 1;
      collector_errors = if is_error s then t.collector_errors + 1 else t.collector_errors;
      has_degraded = degraded;
    }
    else record t { has_other_error = t.has_other_error || is_error s; has_degraded = degraded }

-- The loop over the map, in the order that the list has.
unfoldable pub tally : Dict ComponentStatus → Tally → Tally
unfolding tally_one
tally [] t = t
tally ((name, c) ∷ cs) t = tally cs (tally_one name c.status t)

abbrev pub no_tally : Tally
no_tally = record {
  collector_errors = 0;
  collectors = 0;
  has_other_error = false;
  has_degraded = false;
}

unfoldable pub has_error : Option ComponentStatus → Bool
has_error none = false
has_error (some c) = is_error c.status

unfoldable pub calculate_overall_status : Dict ComponentStatus → Status
unfolding tally has_error
calculate_overall_status [] = status_ok
calculate_overall_status (c ∷ cs) =
    let t = tally (c ∷ cs) no_tally in
    if ltb 0 t.collectors && (t.collector_errors == t.collectors)
    then status_error
    else if has_error (lookup (codes "uploader") (c ∷ cs))
    then status_error
    else if has_error (lookup (codes "storage") (c ∷ cs))
    then status_error
    else if t.has_other_error
    then status_error
    else if t.has_degraded || ltb 0 t.collector_errors
    then status_degraded
    else status_ok

pub record HealthReport : Type 0 where
  pub status : Status
  pub timestamp : ℤ
  pub components : Dict ComponentStatus
  pub uptime : ℤ

unfoldable pub get_report : ℤ → Checker → HealthReport
unfolding calculate_overall_status
get_report now c = record {
  status = calculate_overall_status c.components;
  timestamp = now;
  components = c.components;
  uptime = now -ℤ c.start_time;
}

-- The status code that HTTPHandler writes.
unfoldable pub health_code : HealthReport → ℕ
health_code r = elim r.status [ status_ok ↦ 200 | status_degraded ↦ 200 | status_error ↦ 503 ]

-- The status code that ReadinessHandler writes.
unfoldable pub readiness_code : HealthReport → ℕ
readiness_code r = elim r.status [ status_ok ↦ 200 | status_degraded ↦ 503 | status_error ↦ 503 ]
