-- ===== src/Parsing/Printed.antt =====
-- Words between blanks and decimal numbers are read back as they were printed.
use mathlib.Core.List.{reverse_aux, reverse-append, reverse-reverse}
use tidewatch.Base.{
  some, reverse, ℕ, zero, suc, ◌+◌, ◌*◌, ◌/◌, ◌%◌, ◌^◌, ◌<◌, ◌≡◌, refl, ◌∙◌, ap, inl, inr, Bool,
  true, false, [], ◌∷◌, ◌++◌, arith, Bool-cases, ltb, keep, Text, All, All-imp,
}
use tidewatch.Base.Int.{pos}
use tidewatch.Base.Decimal.{digits, format_dec, is_digit}
use tidewatch.Parsing.{
  split_by, is_newline, is_space, is_word, fields, trim_colon, parse_from, parse_uint, parse_uint64,
  atoi, positive, trim_space, drop_spaces, number,
}

-- No byte satisfies the test.
abbrev pub Lacks : (ℕ → Bool) → Text → Type 0
Lacks p w = All (λ c. p c ≡ false) w

pub split_by-append :
    (p : ℕ → Bool) (w : Text) (c : ℕ) (s : Text)
    → Lacks p w
    → p c ≡ true
    → split_by p (w ++ c ∷ s) ≡ w ∷ split_by p s
unfolding split_by
split_by-append p [] c s h e = rw e refl
split_by-append p (d ∷ w) c s (n, h) e = rw (n, split_by-append p w c s h e) refl

pub split_by-whole : (p : ℕ → Bool) (w : Text) → Lacks p w → split_by p w ≡ w ∷ []
unfolding split_by
split_by-whole p [] h = refl
split_by-whole p (d ∷ w) (n, h) = rw (n, split_by-whole p w h) refl

pub fields-blank : (c : ℕ) (s : Text) → is_space c ≡ true → fields (c ∷ s) ≡ fields s
unfolding fields split_by keep
fields-blank c s e = rw e refl

pub fields-word :
    (w : Text) (c : ℕ) (s : Text)
    → is_word w ≡ true
    → Lacks is_space w
    → is_space c ≡ true
    → fields (w ++ c ∷ s) ≡ w ∷ fields s
unfolding fields keep
fields-word w c s n h e = rw (split_by-append is_space w c s h e, n) refl

pub fields-last : (w : Text) → is_word w ≡ true → Lacks is_space w → fields w ≡ w ∷ []
unfolding fields keep
fields-last w n h = rw (split_by-whole is_space w h, n) refl

pub trim_colon-append : (w : Text) → trim_colon (w ++ b':' ∷ []) ≡ w
unfolding trim_colon
trim_colon-append [] = refl
trim_colon-append (c ∷ []) = refl
trim_colon-append (c ∷ (d ∷ w)) = ap (λ t. c ∷ t) (trim_colon-append (d ∷ w))

parse_digit :
    (n : ℕ) (out : Text)
    → n < 2 ^ 64
    → parse_from (n / 10) ((b'0' + n % 10) ∷ out) ≡ parse_from n out
unfolding parse_from
parse_digit n out b = let e : n / 10 * 10 + n % 10 ≡ n = omega arith in ground (arith, b)

parse_from-digits :
    (fuel n : ℕ) (out : Text)
    → n < fuel
    → n < 2 ^ 64
    → parse_from 0 (digits fuel n out) ≡ parse_from n out
unfolding digits
parse_from-digits zero n out h b = absurd (omega arith)
parse_from-digits (suc fuel) n out h b = elim (Bool-cases (ltb n 10)) [
  | inl short ↦ rw short (unfold parse_from in ground (arith, b))
  | inr long ↦ rw long (
      parse_from-digits fuel (n / 10) ((b'0' + n % 10) ∷ out) (ground arith) (omega arith)
      ∙ parse_digit n out b)
]

digits-IsDigits :
    (fuel n : ℕ) (out : Text)
    → All (λ c. is_digit c ≡ true) out
    → n < fuel
    → All (λ c. is_digit c ≡ true) (digits fuel n out) × (is_word (digits fuel n out) ≡ true)
unfolding digits
digits-IsDigits zero n out h b = absurd (omega arith)
digits-IsDigits (suc fuel) n out h b = elim (Bool-cases (ltb n 10)) [
  | inl short ↦ rw short ((ground (arith, short), h), refl)
  | inr long ↦
      rw long
        (digits-IsDigits fuel (n / 10) ((b'0' + n % 10) ∷ out) (ground arith, h) (ground arith))
]

parse_uint_word : (w : Text) → is_word w ≡ true → parse_uint w ≡ parse_from 0 w
unfolding parse_uint
parse_uint_word [] h = cc
parse_uint_word (c ∷ w) h = refl

pub parse_uint-format_dec : (n : ℕ) → n < 2 ^ 64 → parse_uint (format_dec n) ≡ number n
unfolding format_dec
parse_uint-format_dec n b =
    parse_uint_word (digits (n + 1) n []) (digits-IsDigits (n + 1) n [] tt (omega arith)).1
    ∙ parse_from-digits (n + 1) n [] (omega arith) b
    ∙ unfold parse_from in refl

pub parse_uint64-format_dec : (n : ℕ) → n < 2 ^ 64 → parse_uint64 (format_dec n) ≡ n
unfolding parse_uint64
parse_uint64-format_dec n h = rw (parse_uint-format_dec n h) refl

pub is_word-format_dec : (n : ℕ) → is_word (format_dec n) ≡ true
unfolding format_dec
is_word-format_dec n = (digits-IsDigits (n + 1) n [] tt (omega arith)).1

pub format_dec-Lacks : (n : ℕ) → Lacks is_space (format_dec n)
unfolding format_dec
format_dec-Lacks n =
    All-imp (λ c e. ground (arith, e)) _ (digits-IsDigits (n + 1) n [] tt (omega arith)).0

-- Blanks before a text.
abbrev pub blanks : ℕ → Text → Text
blanks zero s = s
blanks (suc n) s = 32 ∷ blanks n s

pub blanks-Lacks : (n : ℕ) (s : Text) → Lacks is_newline s → Lacks is_newline (blanks n s)
blanks-Lacks zero s h = h
blanks-Lacks (suc n) s h = (refl, blanks-Lacks n s h)

pub fields-blanks : (n : ℕ) (s : Text) → fields (blanks n s) ≡ fields s
fields-blanks zero s = refl
fields-blanks (suc n) s = fields-blank 32 (blanks n s) refl ∙ fields-blanks n s

pub no_newline : (w : Text) → Lacks is_space w → Lacks is_newline w
no_newline w h = All-imp (λ c e. ground (arith, e)) w h

atoi_digit :
    (w : Text)
    → All (λ c. is_digit c ≡ true) w
    → is_word w ≡ true
    → atoi w ≡ positive (parse_uint w)
unfolding atoi
atoi_digit [] h e = cc
atoi_digit (c ∷ w) (d, h) e = ground (arith, d)

pub atoi-format_dec : (n : ℕ) → n < 2 ^ 63 → atoi (format_dec n) ≡ some (pos n)
unfolding format_dec
atoi-format_dec n h =
    let (digits, word) = digits-IsDigits (n + 1) n [] tt (omega arith) in
    atoi_digit (format_dec n) digits word
    ∙ ap positive (parse_uint-format_dec n (omega arith))
    ∙ ground (arith, h)

drop_spaces-word : (w : Text) → Lacks is_space w → drop_spaces w ≡ w
drop_spaces-word [] h = refl
drop_spaces-word (c ∷ w) (e, h) = rw e refl

reverse_aux-Lacks : (p : ℕ → Bool) (w r : Text) → Lacks p w → Lacks p r → Lacks p (reverse_aux w r)
reverse_aux-Lacks p [] r h k = k
reverse_aux-Lacks p (c ∷ w) r (e, h) k = reverse_aux-Lacks p w (c ∷ r) h (e, k)

-- What TrimSpace does with a word before a newline.
pub trim_space-line : (w : Text) → Lacks is_space w → trim_space (w ++ 10 ∷ []) ≡ w
unfolding trim_space
trim_space-line [] h = refl
trim_space-line (c ∷ w) (e, h) =
    ap (λ t. reverse (drop_spaces (reverse t))) (head_stays e)
    ∙ ap (λ t. reverse (drop_spaces t)) (reverse-append (c ∷ w) (10 ∷ []))
    ∙ ap reverse
        (drop_spaces-word (reverse (c ∷ w)) (reverse_aux-Lacks is_space (c ∷ w) [] (e, h) tt))
    ∙ reverse-reverse (c ∷ w)
  where
    head_stays : is_space c ≡ false → drop_spaces ((c ∷ w) ++ 10 ∷ []) ≡ (c ∷ w) ++ 10 ∷ []
    head_stays e = rw e refl
