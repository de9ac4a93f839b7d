-- ===== src/Base/Decimal/Defs.antt =====
-- Sprintf("%d") and Sscanf("%d") of package fmt, as far as the program uses them.
use Prim.Native.Nat.{ℕ, zero, suc, ◌+◌, ◌-◌, ◌*◌, ◌/◌, ◌%◌, ◌^◌}
use mathlib.Core.Bool.{Bool, true, false, ◌&&◌, ◌||◌}
use mathlib.Core.Option.{Option, none, some}
use mathlib.Core.List.{[], ◌∷◌}
use tidewatch.Base.Tests.{ltb, leb, ◌==◌, if◌then◌else◌}
use tidewatch.Base.Strings.{Text}
use tidewatch.Base.Int.{ℤ, pos, sub_ℕ}

-- The digits of `n` before `out`; one digit for each round, and `n + 1` rounds are enough.
unfoldable pub digits : ℕ → ℕ → Text → Text
digits zero n out = out
digits (suc fuel) n out =
    let rest = digits fuel (n / 10) ((b'0' + n % 10) ∷ out) in
    if ltb n 10 then (b'0' + n) ∷ out else rest

-- `fmt.Sprintf("%d", n)`
unfoldable pub format_dec : ℕ → Text
unfolding digits
format_dec n = digits (n + 1) n []

abbrev pub is_digit : ℕ → Bool
is_digit c = leb b'0' c && leb c b'9'

-- The run of digits at the head of a text, read in base ten.
unfoldable pub read_digits : ℕ → Text → ℕ
read_digits n [] = n
read_digits n (c ∷ s) =
    let rest = read_digits (n * 10 + (c - b'0')) s in if is_digit c then rest else n

-- blanks that `Sscanf` skips (a newline ends the scan with an error); ASCII only
abbrev is_blank : ℕ → Bool
is_blank c = c == 32 || c == 9 || c == 11 || c == 12 || c == 13

-- An int64 out of range is an error.
signed : Bool → ℕ → Option ℤ
signed true n = if leb n (2 ^ 63) then some (sub_ℕ 0 n) else none
signed false n = if ltb n (2 ^ 63) then some (pos n) else none

unsigned_part : Bool → Text → Option ℤ
unfolding read_digits signed
unsigned_part negative [] = none
unsigned_part negative (c ∷ s) =
    if is_digit c then signed negative (read_digits 0 (c ∷ s)) else none

-- `fmt.Sscanf(s, "%d", &n)` into an int64: `none` is an error, which leaves `n` as it was.
unfoldable pub scan_dec : Text → Option ℤ
unfolding unsigned_part
scan_dec [] = none
scan_dec (c ∷ s) =
    if is_blank c
    then scan_dec s
    else if c == b'-'
    then unsigned_part true s
    else if c == b'+'
    then unsigned_part false s
    else unsigned_part false (c ∷ s)
