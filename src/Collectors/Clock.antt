-- ===== src/Collectors/Clock.antt =====
-- ClockSkewCollector of internal/collector/clock.go.
pub mod Warnings
pub mod Agreement
use tidewatch.Base.{
  ℕ, zero, suc, ◌+◌, ◌-◌, Option, none, some, Bool, true, false, List, [], ◌∷◌, Text, codes, ltb,
  if◌then◌else◌,
}
use tidewatch.Base.Int.{ℤ, pos, negsuc, pos_part, neg_part, ltb_ℤ, ◌-ℤ◌}
use tidewatch.Models.{Float64, Metric, new_metric}
use tidewatch.Monitoring.ClockSkew.{
  Instant, SkewExchange, Measured, measured, failed, SkewRequest, bearer, quotient, millisecond,
  seconds, server_time, local_estimate,
}

-- `last_warning` is a reading of the monotonic clock, none for the zero time.
pub record ClockSkewCollector : Type 0 where
  pub device_id : Text
  pub clock_skew_url : Text
  pub auth_token : Text
  pub warn_threshold_ms : ℕ
  pub client_timeout : ℕ
  pub last_skew_ms : ℤ
  pub last_warning : Option ℕ

abbrev pub default_clock_skew_warn_threshold_ms : ℕ
default_clock_skew_warn_threshold_ms = 2000

abbrev threshold_or_default : ℤ → ℕ
threshold_or_default (pos zero) = default_clock_skew_warn_threshold_ms
threshold_or_default (pos (suc n)) = suc n
threshold_or_default (negsuc n) = default_clock_skew_warn_threshold_ms

unfoldable pub new_clock_skew_collector : Text → Text → Text → ℤ → ClockSkewCollector
new_clock_skew_collector device_id url token threshold = record {
  device_id = device_id;
  clock_skew_url = url;
  auth_token = token;
  warn_threshold_ms = threshold_or_default threshold;
  client_timeout = seconds 10;
  last_skew_ms = pos 0;
  last_warning = none;
}

abbrev pub hour : ℕ
hour = seconds 3600

-- `now.Sub(c.lastWarningLoggedTime) > time.Hour`; since the zero time it is centuries.
abbrev pub is_hour_ago : Option ℕ → ℕ → Bool
is_hour_ago none now = true
is_hour_ago (some t) now = ltb hour (now - t)

pub record ClockWarning : Type 0 where
  pub skew_ms : ℕ
  pub is_behind : Bool

-- One call of Collect: its time stamp for the metric, time.Now() at the warning, and the request.
pub record ClockCheck : Type 0 where
  pub stamp : ℤ
  pub now : ℕ
  pub exchange : SkewExchange

-- What a call returns and logs, and the collector after it.
pub record ClockOutcome : Type 0 where
  pub metrics : Measured (List Metric)
  pub warning : Option ClockWarning
  pub collector : ClockSkewCollector

abbrev pub magnitude : ℤ → ℕ
magnitude n = pos_part n + neg_part n

unfoldable pub warn_if : ℕ → ℤ → ClockSkewCollector → Option ClockWarning × ClockSkewCollector
warn_if now skew_ms c =
    if ltb c.warn_threshold_ms (magnitude skew_ms)
    then if is_hour_ago c.last_warning now
      then (
        some (record { skew_ms = magnitude skew_ms; is_behind = ltb_ℤ skew_ms (pos 0) }),
        record c { last_warning = some now },
      )
      else (none, c)
    else (none, c)

unfoldable pub skew_measured :
    (ℤ → Float64) → ClockCheck → ClockSkewCollector → Measured ℤ → ClockOutcome
unfolding warn_if
skew_measured to_float k c (failed e) = record { metrics = failed e; warning = none; collector = c }
skew_measured to_float k c (measured t) =
    let skew_ms = quotient (local_estimate k.exchange -ℤ t) millisecond in
    let warned = warn_if k.now skew_ms c in
    record {
      metrics =
          measured (new_metric k.stamp (codes "time.skew_ms") (to_float skew_ms) c.device_id ∷ []);
      warning = warned.0;
      collector = record warned.1 { last_skew_ms = skew_ms };
    }

abbrev pub clock_request : ClockSkewCollector → SkewRequest
clock_request c = record {
  url = c.clock_skew_url;
  authorization = bearer c.auth_token;
  timeout = c.client_timeout;
}

abbrev pub has_url : Text → Bool
has_url [] = false
has_url (b ∷ s) = true

unfoldable pub collect_clock : (ℤ → Float64) → ClockCheck → ClockSkewCollector → ClockOutcome
unfolding skew_measured server_time
collect_clock to_float k c =
    if has_url c.clock_skew_url
    then skew_measured to_float k c (server_time k.exchange (clock_request c))
    else record { metrics = measured []; warning = none; collector = c }
