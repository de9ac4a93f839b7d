-- ===== src/Config/Floats.antt =====
-- The comparisons of float64 values, on their bit patterns.
use tidewatch.Base.{◌-◌, ◌%◌, ◌^◌, Bool, not, ◌&&◌, ltb, if◌then◌else◌}
use tidewatch.Base.Int.{ℤ, pos, sub_ℕ, ltb_ℤ, eqb_ℤ}
use tidewatch.Models.{Float64}

-- the exponent of all ones with a fraction
abbrev pub is_nan : Float64 → Bool
is_nan x = ltb 9218868437227405312 (x % 2 ^ 63)

-- the place of a number in the order; both zeros have the same
abbrev pub place : Float64 → ℤ
place x = if ltb x (2 ^ 63) then pos x else sub_ℕ 0 (x - 2 ^ 63)

unfoldable pub float_lt : Float64 → Float64 → Bool
float_lt x y = not (is_nan x) && not (is_nan y) && ltb_ℤ (place x) (place y)

unfoldable pub float_eq : Float64 → Float64 → Bool
float_eq x y = not (is_nan x) && not (is_nan y) && eqb_ℤ (place x) (place y)

abbrev pub float_zero : Float64
float_zero = 0

abbrev pub float_one : Float64
float_one = 4607182418800017408

abbrev pub float_two : Float64
float_two = 4611686018427387904
