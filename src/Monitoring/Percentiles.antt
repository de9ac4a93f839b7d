-- ===== src/Monitoring/Percentiles.antt =====
-- calculatePercentiles of internal/monitoring/metrics.go. `gt` is > on float64. The products
-- float64(n) * P are taken as exact: for the at most 100 samples that are kept, a product whose exact
-- value is a whole number and a half is rounded to it, and all others are at least 0.01 away from one.
use tidewatch.Base.{
  ℕ, zero, suc, ◌-◌, ◌*◌, ◌/◌, Bool, List, [], ◌∷◌, none, some, leb, if◌then◌else◌, length,
  get_elem?,
}
use tidewatch.Models.{Float64}

abbrev pub zero_float : Float64
zero_float = 0

-- The inner loop: `x` is sorted[i], swapped with each later element that it is greater than. What
-- stands at i in the end, and the elements after it.
unfoldable pub exchange :
    (Float64 → Float64 → Bool) → Float64 → List Float64 → Float64 × List Float64
exchange gt x [] = (x, [])
exchange gt x (y ∷ ys) =
    let first = if gt x y then y else x in
    let other = if gt x y then x else y in
    let (least, rest) = exchange gt first ys in (least, other ∷ rest)

-- The outer loop, over the first n positions.
unfoldable pub exchange_sort : (Float64 → Float64 → Bool) → ℕ → List Float64 → List Float64
unfolding exchange
exchange_sort gt zero xs = xs
exchange_sort gt (suc n) [] = []
exchange_sort gt (suc n) (x ∷ xs) =
    let (least, rest) = exchange gt x xs in least ∷ exchange_sort gt n rest

-- int(float64(n)*P - 0.5) for P = p / 100, with P at least 0.5 and n at least 1.
unfoldable pub rank : ℕ → ℕ → ℕ
rank n p = (n * p - 50) / 100

-- `if idx >= n { idx = n - 1 }`
unfoldable pub clamp : ℕ → ℕ → ℕ
clamp n i = if leb n i then n - 1 else i

-- sorted[i], where i is in range
unfoldable pub at : List Float64 → ℕ → Float64
at xs i = elim (get_elem? xs i) [ some x ↦ x | none ↦ zero_float ]

unfoldable pub calculate_percentiles :
    (Float64 → Float64 → Bool) → List Float64 → Float64 × Float64 × Float64
unfolding exchange_sort rank clamp at
calculate_percentiles gt [] = (zero_float, zero_float, zero_float)
calculate_percentiles gt (x ∷ xs) =
    let n = length (x ∷ xs) in
    let sorted = exchange_sort gt n (x ∷ xs) in
    (
      at sorted (clamp n (rank n 50)),
      at sorted (clamp n (rank n 95)),
      at sorted (clamp n (rank n 99)),
    )
