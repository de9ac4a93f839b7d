-- ===== src/Monitoring/Samples.antt =====
-- The windows and the counters of the meta-metrics after one more sample or count.
use tidewatch.Base.{
  ℕ, zero, suc, ◌+◌, ◌-◌, ◌%◌, ◌^◌, ◌≤◌, ◌<◌, ◌≡◌, refl, sym, ap, ◌∙◌, false, List, [], ◌∷◌, ◌++◌,
  arith, ltb, if◌then◌else◌, Bool-cases, length, length-append, length-drop, drop, Text, Dict,
  text_eq, text_eq_iff, lookup, insert, lookup-insert, inl, inr,
}
use tidewatch.Models.{Float64}
use tidewatch.Monitoring.Collector.{add_wrapped, record_duration, or_no_count, or_no_samples}

-- The last 100 of a list.
abbrev pub last_100 : List Float64 → List Float64
last_100 l = drop (length l - 100) l

module _ {A : Type 0} where
  drop-append : (k : ℕ) (l r : List A) → k ≤ length l → drop k (l ++ r) ≡ drop k l ++ r
  unfolding drop
  drop-append zero l r h = refl
  drop-append (suc k) [] r h = absurd (omega arith)
  drop-append (suc k) (x ∷ l) r h = drop-append k l r (omega arith)

  drop-drop_one : (k : ℕ) (l : List A) → drop 1 (drop k l) ≡ drop (suc k) l
  unfolding drop
  drop-drop_one zero l = refl
  drop-drop_one (suc k) [] = refl
  drop-drop_one (suc k) (x ∷ l) = drop-drop_one k l

record_duration_short :
    (w : List Float64) (d : Float64) → length w < 100 → record_duration 100 w d ≡ w ++ d ∷ []
unfolding record_duration
record_duration_short w d h =
    let test : ltb 100 (length (w ++ d ∷ [])) ≡ false = ground (arith, length-append w (d ∷ [])) in
    rw test refl

record_duration_full :
    (w : List Float64) (d : Float64)
    → length w ≡ 100
    → record_duration 100 w d ≡ drop 1 (w ++ d ∷ [])
unfolding record_duration
record_duration_full w d h =
    let len : length (w ++ d ∷ []) ≡ 101 = omega (arith, length-append w (d ∷ [])) in rw len refl

-- Recording into the window of the last 100 samples gives the window of the longer list.
pub record_duration-last_100 :
    (l : List Float64) (d : Float64) → record_duration 100 (last_100 l) d ≡ last_100 (l ++ d ∷ [])
record_duration-last_100 l d = elim (Bool-cases (ltb (length l) 100)) [
  | inl e ↦
      let none_before : length l - 100 ≡ 0 = ground arith in
      let none_after : length (l ++ d ∷ []) - 100 ≡ 0 = ground (arith, length-append l (d ∷ [])) in
      rw (none_before, none_after) (unfold drop in record_duration_short l d (ground arith))
  | inr e ↦
      let k = length l - 100 in
      let one_more : length (l ++ d ∷ []) - 100 ≡ suc k =
        ground (arith, length-append l (d ∷ [])) in
      record_duration_full (drop k l) d (ground (arith, length-drop k l))
      ∙ ap (drop 1) (sym (drop-append k l (d ∷ []) (omega arith)))
      ∙ drop-drop_one k (l ++ d ∷ [])
      ∙ ap (λ n. drop n (l ++ d ∷ [])) (sym one_more)
]

pub add_wrapped_mod : (a b n : ℕ) → a ≡ n % 2 ^ 64 → add_wrapped a b ≡ (b + n) % 2 ^ 64
unfolding add_wrapped
add_wrapped_mod a b n h = omega arith

pub nothing_more : (a n : ℕ) → a ≡ n % 2 ^ 64 → a ≡ (0 + n) % 2 ^ 64
nothing_more a n h = omega arith

-- One key of a map of counts is counted up.
pub counted_more :
    (m : Dict ℕ) (g : Text → ℕ) (name other : Text) (n : ℕ)
    → ((key : Text) → or_no_count (lookup key m) ≡ g key % 2 ^ 64)
    → or_no_count (lookup other (insert name (add_wrapped (or_no_count (lookup name m)) n) m))
      ≡ ((if text_eq name other then n else 0) + g other) % 2 ^ 64
counted_more m g name other n h =
    rw (lookup-insert name other (add_wrapped (or_no_count (lookup name m)) n) m)
      (elim (Bool-cases (text_eq name other)) [
        | inl e ↦
            let same : name ≡ other = (text_eq_iff name other).0 e in
            rw e (add_wrapped_mod _ n (g other) (h name ∙ ap (λ key. g key % 2 ^ 64) same))
        | inr e ↦ rw e (nothing_more _ (g other) (h other))
      ])

-- One key of the windows gets a sample.
pub sampled_more :
    (m : Dict (List Float64)) (g : Text → List Float64) (name other : Text) (d : Float64)
    → ((key : Text) → or_no_samples (lookup key m) ≡ last_100 (g key))
    → or_no_samples
        (lookup other (insert name (record_duration 100 (or_no_samples (lookup name m)) d) m))
      ≡ last_100 (if text_eq name other then g other ++ d ∷ [] else g other)
sampled_more m g name other d h =
    rw (lookup-insert name other (record_duration 100 (or_no_samples (lookup name m)) d) m)
      (elim (Bool-cases (text_eq name other)) [
        | inl e ↦
            let same : name ≡ other = (text_eq_iff name other).0 e in
            rw e (
              ap (λ w. record_duration 100 w d) (h name ∙ ap (λ key. last_100 (g key)) same)
              ∙ record_duration-last_100 (g other) d)
        | inr e ↦ rw e (h other)
      ])
