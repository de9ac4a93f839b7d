-- ===== src/Storage/Select/Answers.antt =====
-- What Query and QueryUnuploaded select: the first rows of an order, up to the limit.
use tidewatch.Base.{
  ℕ, zero, suc, ◌≤◌, ◌≡◌, Bool, true, List, [], ◌++◌, append-nil, arith, length, length-take, keep,
  drop, take-append-drop, All, Sorted, Perm,
}
use mathlib.Core.List.Perm
use tidewatch.Base.Int.{ℤ, pos, negsuc}
use tidewatch.Storage.Table.{Row, Db}
use tidewatch.Storage.Select.{limit_to}

-- A number of rows that respects a LIMIT: none where it is not positive.
abbrev pub Within : ℤ → ℕ → Type 0
Within (pos zero) n = Unit
Within (pos (suc k)) n = n ≤ suc k
Within (negsuc k) n = Unit

-- A list holds the first of the rows that pass a test, in order, and leaves `rest` out.
pub record IsFirst (le : Row → Row → Bool) (p : Row → Bool) (limit : ℤ) (db : Db) (rows : List Row)
    : Type 0 where
  pub rest : List Row
  pub sorted : Sorted le rows
  pub passing : All (λ r. p r ≡ true) rows
  pub all : Perm (rows ++ rest) (keep p db.rows)
  pub first : All (λ r. All (λ q. le r q ≡ true) rest) rows
  pub within : Within limit (length rows)

pub limit_to-split :
    (z : ℤ) (l : List Row)
    → (rest : List Row) × (limit_to z l ++ rest ≡ l) × Within z (length (limit_to z l))
unfolding limit_to
limit_to-split (pos zero) l = ([], append-nil l, tt)
limit_to-split (pos (suc n)) l =
    (drop (suc n) l, take-append-drop (suc n) l, omega (arith, length-take (suc n) l))
limit_to-split (negsuc n) l = ([], append-nil l, tt)
