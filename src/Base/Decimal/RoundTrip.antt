-- ===== src/Base/Decimal/RoundTrip.antt =====
-- What is printed is read back.
use Prim.Native.Nat.{ℕ, zero, suc, ◌+◌, ◌*◌, ◌/◌, ◌%◌, ◌^◌, ◌<◌}
use mathlib.Core.Path.{◌≡◌, refl, ◌∙◌}
use mathlib.Core.Bool.{true}
use mathlib.Core.Logic.{inl, inr}
use mathlib.Core.Option.{some}
use mathlib.Core.List.{[], ◌∷◌}
use native.Mathlib.Omega.{arith}
use tidewatch.Base.Tests.{ltb, Bool-cases}
use tidewatch.Base.Strings.{Text}
use tidewatch.Base.Int.{pos}
use tidewatch.Base.Decimal.Defs.{digits, format_dec, is_digit, read_digits, scan_dec}

digit_step : (n : ℕ) (out : Text) → read_digits (n / 10) ((b'0' + n % 10) ∷ out) ≡ read_digits n out
unfolding read_digits
digit_step n out = let e : n / 10 * 10 + n % 10 ≡ n = omega arith in ground arith

read_digits-digits :
    (fuel n : ℕ) (out : Text) → n < fuel → read_digits 0 (digits fuel n out) ≡ read_digits n out
unfolding digits
read_digits-digits zero n out h = absurd (omega arith)
read_digits-digits (suc fuel) n out h = elim (Bool-cases (ltb n 10)) [
  | inl short ↦ rw short (unfold read_digits in ground arith)
  | inr long ↦
      rw long
        (read_digits-digits fuel (n / 10) ((b'0' + n % 10) ∷ out) (ground arith) ∙ digit_step n out)
]

head-digits :
    (fuel n : ℕ) (out : Text)
    → n < fuel
    → (c : ℕ) × (s : Text) × (digits fuel n out ≡ c ∷ s) × (is_digit c ≡ true)
unfolding digits
head-digits zero n out h = absurd (omega arith)
head-digits (suc fuel) n out h = elim (Bool-cases (ltb n 10)) [
  | inl short ↦ rw short (b'0' + n, out, refl, ground arith)
  | inr long ↦ rw long (head-digits fuel (n / 10) ((b'0' + n % 10) ∷ out) (ground arith))
]

scan_dec_digit :
    (c : ℕ) (s : Text) (n : ℕ)
    → is_digit c ≡ true
    → read_digits 0 (c ∷ s) ≡ n
    → n < 2 ^ 63
    → scan_dec (c ∷ s) ≡ some (pos n)
unfolding scan_dec
scan_dec_digit c s n h e b = ground arith

-- Sscanf("%d") reads back what Sprintf("%d") printed, for every non-negative int64.
pub scan_dec-format_dec : (n : ℕ) → n < 2 ^ 63 → scan_dec (format_dec n) ≡ some (pos n)
unfolding format_dec
scan_dec-format_dec n b =
    let (c, s, e, d) = head-digits (n + 1) n [] (omega arith) in
    rw e
      (scan_dec_digit c s n d (rw (← e) (read_digits-digits (n + 1) n [] (omega arith) ∙ end n)) b)
  where
    end : (n : ℕ) → read_digits n [] ≡ n
    end n = unfold read_digits in refl
