-- ===== src/Base/Sorting.antt =====
-- Sorting as an interface. SQL's ORDER BY and Go's sort.Slice leave the order of ties open, so a
-- component that sorts takes any value of `Sorter`; insertion sort shows that one exists.
use mathlib.Core.Path.{◌≡◌}
use mathlib.Core.Logic.{◌⊎◌, inl, inr}
use mathlib.Core.Bool.{Bool, true, false}
use mathlib.Core.List.{List, [], ◌∷◌, Perm}
use mathlib.Core.List.Perm
use tidewatch.Base.Tests.{if◌then◌else◌, Bool-cases}
use tidewatch.Base.Lists.{All}

-- Each element is at most all that follow it.
abbrev pub Sorted {ℓ} : {A : Type ℓ} → (A → A → Bool) → List A → Type 0
Sorted le [] = Unit
Sorted le (x ∷ xs) = All (λ y. le x y ≡ true) xs × Sorted le xs

-- A total preorder, as a test.
pub record Preorder {ℓ} {A : Type ℓ} (le : A → A → Bool) : Type ℓ where
  pub total : (a b : A) → (le a b ≡ true) ⊎ (le b a ≡ true)
  pub trans : (a b c : A) → le a b ≡ true → le b c ≡ true → le a c ≡ true

pub record Sorter {ℓ} {A : Type ℓ} (le : A → A → Bool) : Type ℓ where
  pub sort : List A → List A
  pub sort-perm : (l : List A) → Perm (sort l) l
  pub sort-Sorted : (l : List A) → Sorted le (sort l)

module _ {ℓ} {A : Type ℓ} (le : A → A → Bool) where
  unfoldable pub insert_sorted : A → List A → List A
  insert_sorted a [] = a ∷ []
  insert_sorted a (x ∷ xs) = if le a x then a ∷ x ∷ xs else x ∷ insert_sorted a xs

  unfoldable pub insertion_sort : List A → List A
  unfolding insert_sorted
  insertion_sort [] = []
  insertion_sort (x ∷ xs) = insert_sorted x (insertion_sort xs)

  insert_sorted-perm : (a : A) (xs : List A) → Perm (insert_sorted a xs) (a ∷ xs)
  unfolding insert_sorted
  insert_sorted-perm a [] = Perm.refl _
  insert_sorted-perm a (x ∷ xs) = elim (Bool-cases (le a x)) [
    | inl h ↦ rw h (Perm.refl _)
    | inr h ↦ rw h (Perm.trans (Perm.cons x (insert_sorted-perm a xs)) (Perm.swap a x xs))
  ]

  pub insertion_sort-perm : (xs : List A) → Perm (insertion_sort xs) xs
  unfolding insertion_sort
  insertion_sort-perm [] = Perm.refl _
  insertion_sort-perm (x ∷ xs) =
      Perm.trans (insert_sorted-perm x (insertion_sort xs)) (Perm.cons x (insertion_sort-perm xs))

module _ {ℓ} {A : Type ℓ} {le : A → A → Bool} (order : Preorder le) where
  All-le_trans :
      (a b : A) (xs : List A)
      → le a b ≡ true
      → All (λ y. le b y ≡ true) xs
      → All (λ y. le a y ≡ true) xs
  All-le_trans a b [] h k = tt
  All-le_trans a b (x ∷ xs) h (k, ks) = (order.trans a b x h k, All-le_trans a b xs h ks)

  All-insert_sorted :
      (b a : A) (xs : List A)
      → le b a ≡ true
      → All (λ y. le b y ≡ true) xs
      → All (λ y. le b y ≡ true) (insert_sorted le a xs)
  unfolding insert_sorted
  All-insert_sorted b a [] h k = (h, tt)
  All-insert_sorted b a (x ∷ xs) h (k, ks) = elim (Bool-cases (le a x)) [
    | inl e ↦ rw e (h, (k, ks))
    | inr e ↦ rw e (k, All-insert_sorted b a xs h ks)
  ]

  insert_sorted-Sorted : (a : A) (xs : List A) → Sorted le xs → Sorted le (insert_sorted le a xs)
  unfolding insert_sorted
  insert_sorted-Sorted a [] s = (tt, tt)
  insert_sorted-Sorted a (x ∷ xs) (h, s) = elim (Bool-cases (le a x)) [
    | inl e ↦ rw e ((e, All-le_trans a x xs e h), (h, s))
    | inr e ↦ rw e (All-insert_sorted x a xs (x-le-a e) h, insert_sorted-Sorted a xs s)
  ]
    where
      x-le-a : le a x ≡ false → le x a ≡ true
      x-le-a e = elim (order.total a x) [ inl t ↦ cc | inr t ↦ t ]

  pub insertion_sort-Sorted : (xs : List A) → Sorted le (insertion_sort le xs)
  unfolding insertion_sort
  insertion_sort-Sorted [] = tt
  insertion_sort-Sorted (x ∷ xs) =
      insert_sorted-Sorted x (insertion_sort le xs) (insertion_sort-Sorted xs)

  unfoldable pub insertion_sorter : Sorter le
  unfolding insertion_sort
  insertion_sorter = record {
    sort = insertion_sort le;
    sort-perm = insertion_sort-perm le;
    sort-Sorted = insertion_sort-Sorted;
  }
