-- ===== src/Parsing.antt =====
-- strings.Split, strings.Fields, strings.TrimSuffix, strings.TrimSpace, strconv.ParseUint and
-- strconv.Atoi, as the program uses them on the files of /proc and on the lock file. Texts are ASCII.
pub mod Printed
use tidewatch.Base.{
  Option, none, some, ℕ, ◌+◌, ◌-◌, ◌*◌, ◌^◌, Bool, true, false, ◌&&◌, ◌||◌, List, [], ◌∷◌, ◌==◌,
  leb, ltb, if◌then◌else◌, keep, reverse, Text,
}
use tidewatch.Base.Int.{ℤ, pos, sub_ℕ}
use tidewatch.Base.Decimal.{is_digit}

abbrev with_first : ℕ → List Text → List Text
with_first c [] = (c ∷ []) ∷ []
with_first c (w ∷ ws) = (c ∷ w) ∷ ws

-- The pieces between the bytes that satisfy a test.
unfoldable pub split_by : (ℕ → Bool) → Text → List Text
split_by p [] = [] ∷ []
split_by p (c ∷ s) = let rest = split_by p s in if p c then [] ∷ rest else with_first c rest

abbrev pub is_newline : ℕ → Bool
is_newline c = c == 10

abbrev pub is_colon : ℕ → Bool
is_colon c = c == b':'

-- `unicode.IsSpace`, on ASCII
abbrev pub is_space : ℕ → Bool
is_space c = c == 32 || (leb 9 c && leb c 13)

-- `strings.Split(s, "\n")`
unfoldable pub split_lines : Text → List Text
unfolding split_by
split_lines s = split_by is_newline s

abbrev pub is_word : Text → Bool
is_word [] = false
is_word (c ∷ s) = true

-- `strings.Fields`
unfoldable pub fields : Text → List Text
unfolding split_by
fields s = keep is_word (split_by is_space s)

abbrev drop_spaces : Text → Text
drop_spaces [] = []
drop_spaces (c ∷ s) = if is_space c then drop_spaces s else c ∷ s

-- `strings.TrimSpace`
unfoldable pub trim_space : Text → Text
trim_space s = reverse (drop_spaces (reverse (drop_spaces s)))

-- `strings.TrimSuffix(s, ":")`
unfoldable pub trim_colon : Text → Text
trim_colon [] = []
trim_colon (c ∷ []) = if c == b':' then [] else c ∷ []
trim_colon (c ∷ (d ∷ s)) = c ∷ trim_colon (d ∷ s)

-- What `strconv.ParseUint(s, 10, 64)` answers: a number, or one of its two errors.
pub data Parsed : Type 0 where
  number : ℕ → Parsed
  bad_syntax : Parsed
  out_of_range : Parsed

-- The digits so far are `n`; the first byte that is no digit or makes the number too large ends it.
unfoldable pub parse_from : ℕ → Text → Parsed
parse_from n [] = number n
parse_from n (c ∷ s) =
    let m = n * 10 + (c - b'0') in
    let rest = parse_from m s in
    if is_digit c then (if ltb m (2 ^ 64) then rest else out_of_range) else bad_syntax

unfoldable pub parse_uint : Text → Parsed
unfolding parse_from
parse_uint [] = bad_syntax
parse_uint (c ∷ s) = parse_from 0 (c ∷ s)

-- The value that comes with an error.
abbrev pub value_of : Parsed → ℕ
value_of (number n) = n
value_of bad_syntax = 0
value_of out_of_range = 2 ^ 64 - 1

-- parseUint64 of internal/collector/network_linux.go: the value, whatever the error.
unfoldable pub parse_uint64 : Text → ℕ
unfolding parse_uint
parse_uint64 s = value_of (parse_uint s)

abbrev positive : Parsed → Option ℤ
positive (number n) = if ltb n (2 ^ 63) then some (pos n) else none
positive bad_syntax = none
positive out_of_range = none

abbrev negative : Parsed → Option ℤ
negative (number n) = if leb n (2 ^ 63) then some (sub_ℕ 0 n) else none
negative bad_syntax = none
negative out_of_range = none

-- `strconv.Atoi`; `none` is an error.
unfoldable pub atoi : Text → Option ℤ
unfolding parse_uint
atoi [] = none
atoi (c ∷ s) =
    if c == b'-'
    then negative (parse_uint s)
    else if c == b'+'
    then positive (parse_uint s)
    else positive (parse_uint (c ∷ s))
