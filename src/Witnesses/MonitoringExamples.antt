-- ===== src/Witnesses/MonitoringExamples.antt =====
-- The theorems on the meta-metrics at concrete inputs.
use tidewatch.Base.{Bool, ltb, List, [], ◌∷◌, codes, Preorder, arith}
use tidewatch.Models.{Float64}
use tidewatch.Monitoring.Percentiles.{calculate_percentiles}
use tidewatch.Monitoring.Ranks.{not_gt, IsPercentiles, calculate_percentiles_lem}
use tidewatch.Monitoring.Windows.{
  Event, collected, collect_failed, uploaded, upload_failed, after, Shows, after-Shows,
}

-- the order of the bit patterns, which is that of the numbers from 0 up
abbrev greater : Float64 → Float64 → Bool
greater x y = ltb y x

greater-Preorder : Preorder (not_gt greater)
greater-Preorder = record { total = λ a b. ground arith; trans = λ a b c h k. ground arith }

abbrev percentiles : Float64 × Float64 × Float64
percentiles = calculate_percentiles greater (30 ∷ 10 ∷ 20 ∷ [])

calculate_percentiles_lem_example :
    IsPercentiles greater (30 ∷ 10 ∷ 20 ∷ []) percentiles.0 percentiles.1 percentiles.2
calculate_percentiles_lem_example =
    calculate_percentiles_lem greater greater-Preorder 30 (10 ∷ 20 ∷ [])

-- latest first
abbrev history : List Event
history =
    upload_failed
    ∷ uploaded 12 4602678819172646912
    ∷ collected (codes "cpu") 3 4576918229304087675
    ∷ collect_failed (codes "disk")
    ∷ collected (codes "cpu") 2 4576918229304087675
    ∷ []

after-Shows_example : Shows history (after (codes "device-1") history)
after-Shows_example = after-Shows (codes "device-1") history
