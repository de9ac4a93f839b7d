-- ===== src/Witnesses/ClockExamples.antt =====
-- The theorems on the clock skew at concrete inputs.
use tidewatch.Base.{◌+◌, ◌-◌, ◌/◌, ◌≡◌, refl, none, some, true, [], ◌∷◌, codes, arith}
use tidewatch.Base.Int.{ℤ, pos, pos_part, ◌+ℤ◌, ◌≤ℤ◌}
use tidewatch.Monitoring.ClockSkew.{
  SkewExchange, measured, seconds, server_time, skew_request, detect_clock_skew,
}
use tidewatch.Monitoring.ClockSkew.Accuracy.{Timed, detect_clock_skew_bounds}
use tidewatch.Collectors.Clock.{ClockCheck, ClockSkewCollector}
use tidewatch.Collectors.Clock.Warnings.{findings, IsRegular, findings-IsRegular}

-- The local clock is three seconds ahead; the request takes 20 ms.
abbrev exchange : SkewExchange
exchange = record {
  before = record { wall = pos 103000000000; monotonic = 5000000000 };
  after = record { wall = pos 103020000000; monotonic = 5020000000 };
  is_url = λ url. true;
  answer = λ q. some (codes "date");
  parse_time = λ date. some (pos 100000000000);
}

timed : Timed exchange (pos 3000000000) (pos 100000000000)
unfolding ◌+ℤ◌
timed = record {
  left = 100000000000;
  stamped = 100010000000;
  returned = 100020000000;
  left-le-stamped = omega arith;
  stamped-le-returned = omega arith;
  wall = refl;
  monotonic = refl;
  second = 100;
  whole = refl;
  truncated = (omega arith, omega arith);
}

answered :
    server_time exchange (skew_request (codes "http://vm/health") [] 0)
    ≡ measured (pos 100000000000)
unfolding server_time skew_request
answered = refl

detect_clock_skew_bounds_example :
    (skew : ℤ) × (detect_clock_skew (codes "http://vm/health") [] 0 exchange ≡ measured skew)
    × (pos 3000000000 ≤ℤ skew +ℤ pos ((100020000000 - 100000000000 + 1) / 2))
    × (skew ≤ℤ pos 3000000000 +ℤ pos ((100020000000 - 100000000000) / 2 + seconds 1))
unfolding timed
detect_clock_skew_bounds_example =
    detect_clock_skew_bounds (codes "http://vm/health") [] 0 exchange (pos 3000000000)
      (pos 100000000000) timed answered

abbrev check : ClockCheck
check = record { stamp = pos 103020; now = 5020000000; exchange = exchange }

abbrev clock : ClockSkewCollector
clock = record {
  device_id = codes "device-1";
  clock_skew_url = codes "http://vm/health";
  auth_token = codes "token";
  warn_threshold_ms = 2000;
  client_timeout = seconds 10;
  last_skew_ms = pos 0;
  last_warning = none;
}

findings-IsRegular_example : IsRegular 2000 none (findings pos_part (check ∷ check ∷ []) clock)
findings-IsRegular_example = findings-IsRegular pos_part (check ∷ check ∷ []) clock
