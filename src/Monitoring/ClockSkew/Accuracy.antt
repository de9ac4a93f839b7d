-- ===== src/Monitoring/ClockSkew/Accuracy.antt =====
-- How near the measured skew is to the real one.
use tidewatch.Base.{ℕ, ◌+◌, ◌-◌, ◌/◌, ◌≤◌, ◌<◌, ◌≡◌, refl, arith, Text}
use tidewatch.Base.Int.{ℤ, pos, ◌+ℤ◌, ◌-ℤ◌, ◌≤ℤ◌, int_laws}
use tidewatch.Monitoring.ClockSkew.{
  SkewExchange, measured, detect_clock_skew, server_time, skew_request, seconds, local_estimate,
  round_trip,
}

-- A request that leaves and returns at these times of the server, over a local clock that is `offset`
-- ahead of the server's, and a Date that is the server's time at some moment between the two, in whole
-- seconds.
pub record Timed (x : SkewExchange) (offset : ℤ) (date : ℤ) : Type 0 where
  pub left : ℕ
  pub stamped : ℕ
  pub returned : ℕ
  pub left-le-stamped : left ≤ stamped
  pub stamped-le-returned : stamped ≤ returned
  pub wall : x.before.wall ≡ offset +ℤ pos left
  pub monotonic : x.after.monotonic ≡ x.before.monotonic + (returned - left)
  pub second : ℕ
  pub whole : date ≡ pos (seconds second)
  pub truncated : (seconds second ≤ stamped) × (stamped < seconds second + seconds 1)

-- The estimate takes half of the round trip, by the monotonic clock.
local_estimate_lem :
    (x : SkewExchange) (offset date : ℤ) (t : Timed x offset date)
    → local_estimate x ≡ offset +ℤ pos t.left +ℤ pos ((t.returned - t.left) / 2)
local_estimate_lem x offset date t =
    let trip : round_trip x ≡ pos (t.returned - t.left) = rw t.monotonic (ground arith) in
    rw (trip, t.wall) refl

-- The skew that DetectClockSkew measures, of a clock that is `offset` ahead of the server's. Where the
-- request leaves before the server's Date and returns after it, and the Date is cut to whole seconds:
-- the measured skew is at most half the round trip, rounded up, too small, and at most half the round
-- trip and one second too large, even if the wall clock is set in between.
pub detect_clock_skew_bounds :
    (url token : Text) (timeout : ℕ) (x : SkewExchange) (offset date : ℤ) (t : Timed x offset date)
    → server_time x (skew_request url token timeout) ≡ measured date
    → (skew : ℤ) × (detect_clock_skew url token timeout x ≡ measured skew)
      × (offset ≤ℤ skew +ℤ pos ((t.returned - t.left + 1) / 2))
      × (skew ≤ℤ offset +ℤ pos ((t.returned - t.left) / 2 + seconds 1))
unfolding detect_clock_skew
detect_clock_skew_bounds url token timeout x offset date t e = (
  local_estimate x -ℤ date,
  rw e refl,
  rw (local_estimate_lem x offset date t, t.whole) (omega int_laws),
  rw (local_estimate_lem x offset date t, t.whole) (omega int_laws),
)
