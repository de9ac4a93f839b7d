-- ===== src/Monitoring/ClockSkew.antt =====
-- internal/monitoring/clockskew.go. An instant has the wall clock's reading, in nanoseconds since 1970,
-- and the monotonic one, which time.Time carries both. http.ParseTime is a parameter.
pub mod Accuracy
use tidewatch.Base.{
  ℕ, ◌/◌, ◌*◌, suc, Option, none, some, Bool, List, [], ◌∷◌, ◌++◌, Text, codes, if◌then◌else◌, ◌==◌,
}
use tidewatch.Base.Int.{ℤ, pos, negsuc, sub_ℕ, ◌+ℤ◌, ◌-ℤ◌}

pub record Instant : Type 0 where
  pub wall : ℤ
  pub monotonic : ℕ

-- `-n`
abbrev pub opposite : ℕ → ℤ
opposite n = sub_ℕ 0 n

-- Division by a positive number truncates toward 0.
abbrev pub quotient : ℤ → ℕ → ℤ
quotient (pos n) d = pos (n / d)
quotient (negsuc n) d = opposite (suc n / d)

abbrev pub millisecond : ℕ
millisecond = 1000000

abbrev pub seconds : ℕ → ℕ
seconds n = n * 1000000000

-- The request that is sent.
pub record SkewRequest : Type 0 where
  pub url : Text
  pub authorization : Option Text
  pub timeout : ℕ

pub data SkewError : Type 0 where
  request_invalid : SkewError
  request_failed : SkewError
  no_date : SkewError
  date_invalid : SkewError

pub data Measured {ℓ} (A : Type ℓ) : Type ℓ where
  measured : A → Measured A
  failed : SkewError → Measured A

-- Two readings of the clock around a request, and the network: which URLs make a request, and the Date
-- header of the answer, which is empty where there is none.
pub record SkewExchange : Type 0 where
  pub before : Instant
  pub after : Instant
  pub is_url : Text → Bool
  pub answer : SkewRequest → Option Text
  pub parse_time : Text → Option ℤ

abbrev pub bearer : Text → Option Text
bearer [] = none
bearer (c ∷ s) = some (codes "Bearer " ++ c ∷ s)

unfoldable pub skew_request : Text → Text → ℕ → SkewRequest
skew_request url token timeout = record {
  url = url;
  authorization = bearer token;
  timeout = if timeout == 0 then seconds 5 else timeout;
}

abbrev pub dated : SkewExchange → Text → Measured ℤ
dated x [] = failed no_date
dated x (c ∷ s) = elim (x.parse_time (c ∷ s)) [ none ↦ failed date_invalid | some t ↦ measured t ]

-- The server's time, from the request to the parsed header.
unfoldable pub server_time : SkewExchange → SkewRequest → Measured ℤ
server_time x q =
    if x.is_url q.url
    then elim (x.answer q) [ none ↦ failed request_failed | some date ↦ dated x date ]
    else failed request_invalid

abbrev pub round_trip : SkewExchange → ℤ
round_trip x = sub_ℕ x.after.monotonic x.before.monotonic

-- The local time when the server answered, taken as the middle of the round trip.
abbrev pub local_estimate : SkewExchange → ℤ
local_estimate x = x.before.wall +ℤ quotient (round_trip x) 2

abbrev pub map_measured {ℓ κ} : {A : Type ℓ} {B : Type κ} → (A → B) → Measured A → Measured B
map_measured f (measured a) = measured (f a)
map_measured f (failed e) = failed e

unfoldable pub detect_clock_skew : Text → Text → ℕ → SkewExchange → Measured ℤ
unfolding skew_request server_time
detect_clock_skew url token timeout x =
    map_measured (λ t. local_estimate x -ℤ t) (server_time x (skew_request url token timeout))

pub record ClockSkewResult : Type 0 where
  pub skew : ℤ
  pub skew_ms : ℤ
  pub at_server : ℤ
  pub at_local : ℤ
  pub lasted : ℤ

unfoldable pub detect_clock_skew_detailed :
    Text → Text → ℕ → SkewExchange → Measured ClockSkewResult
unfolding skew_request server_time
detect_clock_skew_detailed url token timeout x =
    map_measured
      (λ t. record {
        skew = local_estimate x -ℤ t;
        skew_ms = quotient (local_estimate x -ℤ t) millisecond;
        at_server = t;
        at_local = local_estimate x;
        lasted = round_trip x;
      })
      (server_time x (skew_request url token timeout))
