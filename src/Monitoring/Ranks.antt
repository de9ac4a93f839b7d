-- ===== src/Monitoring/Ranks.antt =====
-- The exchange sort sorts, and the percentiles are the samples at the rounded ranks.
use tidewatch.Base.{
  ℕ, zero, suc, ◌+◌, ◌*◌, ◌≤◌, ◌<◌, ◌≡◌, refl, ap, Bool, true, false, not, List, [], ◌∷◌, inl, inr,
  arith, Bool-cases, length, All, All-perm, Sorted, Preorder, Perm, length-perm,
}
use mathlib.Core.List.Perm
use tidewatch.Models.{Float64}
use tidewatch.Monitoring.Percentiles.{
  exchange, exchange_sort, rank, clamp, at, calculate_percentiles,
}

-- x <= y, for samples that are numbers.
abbrev pub not_gt : (Float64 → Float64 → Bool) → Float64 → Float64 → Bool
not_gt gt x y = not (gt x y)

exchange-perm :
    (gt : Float64 → Float64 → Bool) (x : Float64) (ys : List Float64)
    → Perm ((exchange gt x ys).0 ∷ (exchange gt x ys).1) (x ∷ ys)
unfolding exchange
exchange-perm gt x [] = Perm.refl _
exchange-perm gt x (y ∷ ys) = elim (Bool-cases (gt x y)) [
  | inl e ↦ rw e (Perm.trans (Perm.swap x _ _) (Perm.cons x (exchange-perm gt y ys)))
  | inr e ↦ rw e (
      Perm.trans (Perm.swap y _ _)
        (Perm.trans (Perm.cons y (exchange-perm gt x ys)) (Perm.swap x y ys)))
]

exchange_sort-perm :
    (gt : Float64 → Float64 → Bool) (n : ℕ) (xs : List Float64) → Perm (exchange_sort gt n xs) xs
unfolding exchange_sort
exchange_sort-perm gt zero xs = Perm.refl _
exchange_sort-perm gt (suc n) [] = Perm.refl _
exchange_sort-perm gt (suc n) (x ∷ xs) =
    Perm.trans (Perm.cons _ (exchange_sort-perm gt n (exchange gt x xs).1)) (exchange-perm gt x xs)

exchange-swaps :
    (gt : Float64 → Float64 → Bool) (x y : Float64) (ys : List Float64)
    → gt x y ≡ true
    → exchange gt x (y ∷ ys) ≡ ((exchange gt y ys).0, x ∷ (exchange gt y ys).1)
unfolding exchange
exchange-swaps gt x y ys e = rw e refl

exchange-keeps :
    (gt : Float64 → Float64 → Bool) (x y : Float64) (ys : List Float64)
    → gt x y ≡ false
    → exchange gt x (y ∷ ys) ≡ ((exchange gt x ys).0, y ∷ (exchange gt x ys).1)
unfolding exchange
exchange-keeps gt x y ys e = rw e refl

module _ (gt : Float64 → Float64 → Bool) (order : Preorder (not_gt gt)) where
  -- what stands at i is at most what it started from and all that follows
  abbrev IsLeast : Float64 → Float64 × List Float64 → Type 0
  IsLeast x (least, rest) = (not_gt gt least x ≡ true) × All (λ y. not_gt gt least y ≡ true) rest

  exchange-IsLeast : (x : Float64) (ys : List Float64) → IsLeast x (exchange gt x ys)
  exchange-IsLeast x [] = unfold exchange in (elim (order.total x x) [ inl h ↦ h | inr h ↦ h ], tt)
  exchange-IsLeast x (y ∷ ys) = elim (Bool-cases (gt x y)) [
    | inl e ↦
        let (le, all) = exchange-IsLeast y ys in
        let yx : not_gt gt y x ≡ true = elim (order.total x y) [
          | inl h ↦ ground (arith, e, h)
          | inr h ↦ h
        ] in
        rw (exchange-swaps gt x y ys e) (order.trans _ y x le yx, (order.trans _ y x le yx, all))
    | inr e ↦
        let (le, all) = exchange-IsLeast x ys in
        rw (exchange-keeps gt x y ys e) (le, (order.trans _ x y le (ap not e), all))
  ]

  pub exchange_sort-Sorted :
      (n : ℕ) (xs : List Float64) → length xs ≤ n → Sorted (not_gt gt) (exchange_sort gt n xs)
  unfolding exchange_sort
  exchange_sort-Sorted zero [] h = tt
  exchange_sort-Sorted zero (x ∷ xs) h = absurd (omega arith)
  exchange_sort-Sorted (suc n) [] h = tt
  exchange_sort-Sorted (suc n) (x ∷ xs) h =
      let rest = (exchange gt x xs).1 in
      let len : length ((exchange gt x xs).0 ∷ rest) ≡ suc (length xs) =
        length-perm (exchange-perm gt x xs) in
      (
        All-perm _ (λ y. hlevel) (Perm.symm (exchange_sort-perm gt n rest))
            (exchange-IsLeast x xs).1,
        exchange_sort-Sorted n rest (omega (arith, len)),
      )

  at-All :
      (P : Float64 → Type 0) (xs : List Float64) (i : ℕ) → All P xs → i < length xs → P (at xs i)
  unfolding at
  at-All P [] i h lt = absurd (omega arith)
  at-All P (x ∷ xs) zero (h, hs) lt = h
  at-All P (x ∷ xs) (suc i) (h, hs) lt = at-All P xs i hs (omega arith)

  -- Along a sorted list, the element at a smaller place is at most the one at a greater place.
  at_mono :
      (xs : List Float64) (i j : ℕ)
      → Sorted (not_gt gt) xs
      → i ≤ j
      → j < length xs
      → not_gt gt (at xs i) (at xs j) ≡ true
  unfolding at
  at_mono [] i j s le lt = absurd (omega arith)
  at_mono (x ∷ xs) zero zero (h, hs) le lt = elim (order.total x x) [ inl h ↦ h | inr h ↦ h ]
  at_mono (x ∷ xs) zero (suc j) (h, hs) le lt =
      at-All (λ y. not_gt gt x y ≡ true) xs j h (omega arith)
  at_mono (x ∷ xs) (suc i) zero s le lt = absurd (omega arith)
  at_mono (x ∷ xs) (suc i) (suc j) (h, hs) le lt = at_mono xs i j hs (omega arith) (omega arith)

-- i + 1 is the whole number nearest to p percent of n, the greater of two.
abbrev pub IsNearest : ℕ → ℕ → ℕ → Type 0
IsNearest p n i = (100 * (i + 1) ≤ n * p + 50) × (n * p + 50 < 100 * (i + 2))

-- Three samples from a sorted list of all samples, at the ranks nearest to 50, 95 and 99 percent.
pub record IsPercentiles (gt : Float64 → Float64 → Bool) (xs : List Float64) (a b c : Float64)
    : Type 0 where
  pub sorted : List Float64
  pub sorted-perm : Perm sorted xs
  pub sorted-Sorted : Sorted (not_gt gt) sorted
  pub i : ℕ
  pub j : ℕ
  pub k : ℕ
  pub i-IsNearest : IsNearest 50 (length xs) i
  pub j-IsNearest : IsNearest 95 (length xs) j
  pub k-IsNearest : IsNearest 99 (length xs) k
  pub in_range : (i < length xs) × (j < length xs) × (k < length xs)
  pub at_i : a ≡ at sorted i
  pub at_j : b ≡ at sorted j
  pub at_k : c ≡ at sorted k
  pub ordered : (not_gt gt a b ≡ true) × (not_gt gt b c ≡ true)

clamp-rank :
    (n : ℕ)
    → 0 < n
    → let i = clamp n (rank n 50) in
      let j = clamp n (rank n 95) in
      let k = clamp n (rank n 99) in
      IsNearest 50 n i × IsNearest 95 n j × IsNearest 99 n k × (k < n) × (i ≤ j) × (j ≤ k)
unfolding clamp rank
clamp-rank n h = ground arith

-- calculatePercentiles of at least one sample gives three of the samples, in order: those at the ranks
-- nearest to 50, 95 and 99 percent of their number (a half counts upwards) when the samples are sorted.
-- The condition is that > is the strict part of a total preorder, as on all numbers but NaN.
pub calculate_percentiles_lem :
    (gt : Float64 → Float64 → Bool) (order : Preorder (not_gt gt)) (x : Float64) (xs : List Float64)
    → let r = calculate_percentiles gt (x ∷ xs) in IsPercentiles gt (x ∷ xs) r.0 r.1 r.2
unfolding calculate_percentiles
calculate_percentiles_lem gt order x xs =
    let n = suc (length xs) in
    let l = exchange_sort gt n (x ∷ xs) in
    let perm = exchange_sort-perm gt n (x ∷ xs) in
    let sorted = exchange_sort-Sorted gt order n (x ∷ xs) (omega arith) in
    let (near_i, near_j, near_k, lt, ij, jk) = clamp-rank n (omega arith) in
    let len : length l ≡ n = length-perm perm in
    record {
      sorted = l;
      sorted-perm = perm;
      sorted-Sorted = sorted;
      i = clamp n (rank n 50);
      j = clamp n (rank n 95);
      k = clamp n (rank n 99);
      i-IsNearest = near_i;
      j-IsNearest = near_j;
      k-IsNearest = near_k;
      in_range = (omega (arith, ij, jk, lt), omega (arith, jk, lt), lt);
      at_i = refl;
      at_j = refl;
      at_k = refl;
      ordered = (
        at_mono gt order l _ _ sorted ij (omega (arith, jk, lt, len)),
        at_mono gt order l _ _ sorted jk (omega (arith, lt, len)),
      );
    }
