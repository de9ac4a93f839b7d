-- ===== src/Base/Perms.antt =====
-- Permutations and the list functions of `Lists`.
use mathlib.Core.Path.{◌≡◌, refl, sym, ap, subst, ◌∙◌}
use mathlib.Core.Logic.{∥∥₁_elim, inl, inr}
use mathlib.Core.Bool.{Bool, false}
use mathlib.Core.List.{List, [], ◌∷◌, ◌++◌, Perm, Permᴰ, append_assoc, perm_append_comm}
use mathlib.Core.List.Perm
use native.Mathlib.Omega.{arith}
use native.Mathlib.Nat.{ℕ_set}
use tidewatch.Base.Tests.{if◌then◌else◌, Bool-cases}
use tidewatch.Base.Lists.{length, keep, All, All-right, All-lookup, In}

module _ {A : Type 0} where
  pub Perm-of_eq : {l r : List A} → l ≡ r → Perm l r
  Perm-of_eq {l} e = subst (λ r. Perm l r) e (Perm.refl l)

  length-permᴰ : {l r : List A} → Permᴰ l r → length l ≡ length r
  length-permᴰ Permᴰ.nil = refl
  length-permᴰ (Permᴰ.cons e d) = omega (arith, length-permᴰ d)
  length-permᴰ (Permᴰ.swap e e') = refl
  length-permᴰ (Permᴰ.trans d d') = length-permᴰ d ∙ length-permᴰ d'

  pub length-perm : {l r : List A} → Perm l r → length l ≡ length r
  length-perm p = ∥∥₁_elim p (ℕ_set _ _) length-permᴰ

  All-permᴰ {κ} : (P : A → Type κ) {l r : List A} → Permᴰ l r → All P l → All P r
  All-permᴰ P Permᴰ.nil h = h
  All-permᴰ P (Permᴰ.cons e d) (h, hs) = (subst P e h, All-permᴰ P d hs)
  All-permᴰ P (Permᴰ.swap e e') (h, (h', hs)) = (subst P e' h', (subst P e h, hs))
  All-permᴰ P (Permᴰ.trans d d') h = All-permᴰ P d' (All-permᴰ P d h)

module _ {A B : Type 0} (f : A → List B) where
  -- The lists of all elements, one after the other.
  unfoldable pub gather : List A → List B
  gather [] = []
  gather (x ∷ xs) = f x ++ gather xs

  pub gather-append : (xs ys : List A) → gather (xs ++ ys) ≡ gather xs ++ gather ys
  unfolding gather
  gather-append [] ys = refl
  gather-append (x ∷ xs) ys =
      ap (◌++◌ (f x)) (gather-append xs ys) ∙ sym (append_assoc (f x) (gather xs) (gather ys))

  gather_swap : (a b : A) (l : List A) → Perm (f a ++ (f b ++ gather l)) (f b ++ (f a ++ gather l))
  gather_swap a b l =
      subst (λ t. Perm t (f b ++ (f a ++ gather l))) (append_assoc (f a) (f b) (gather l))
        (subst (Perm ((f a ++ f b) ++ gather l)) (append_assoc (f b) (f a) (gather l))
          (Perm.append_right (gather l) (perm_append_comm (f a) (f b))))

  gather-permᴰ : {l r : List A} → Permᴰ l r → Perm (gather l) (gather r)
  unfolding gather
  gather-permᴰ Permᴰ.nil = Perm.nil
  gather-permᴰ (Permᴰ.cons e d) = Perm.append (Perm-of_eq (ap f e)) (gather-permᴰ d)
  gather-permᴰ (Permᴰ.swap {a} {b} {a'} {b'} {l} e e') =
      Perm.trans (gather_swap a b l)
        (Perm.append (Perm-of_eq (ap f e')) (Perm.append_right (gather l) (Perm-of_eq (ap f e))))
  gather-permᴰ (Permᴰ.trans d d') = Perm.trans (gather-permᴰ d) (gather-permᴰ d')

  pub gather-perm : {l r : List A} → Perm l r → Perm (gather l) (gather r)
  gather-perm p = ∥∥₁_elim p (hlevel) gather-permᴰ

module _ {A : Type 0} (p : A → Bool) where
  if_kept : A → List A
  if_kept x = if p x then x ∷ [] else []

  keep-eq-gather : (xs : List A) → keep p xs ≡ gather if_kept xs
  unfolding keep gather if_kept
  keep-eq-gather [] = refl
  keep-eq-gather (x ∷ xs) = elim (Bool-cases (p x)) [
    | inl e ↦ rw e (ap (◌∷◌ x) (keep-eq-gather xs))
    | inr e ↦ rw e (keep-eq-gather xs)
  ]

  pub keep-perm : {l r : List A} → Perm l r → Perm (keep p l) (keep p r)
  keep-perm {l} {r} q = rw (keep-eq-gather l, keep-eq-gather r) (gather-perm if_kept q)

module _ {κ} {A : Type 0} (P : A → Type κ) (prop : (a : A) → IsProp (P a)) where
  All-prop : (l : List A) → IsProp (All P l)
  All-prop [] = hlevel
  All-prop (x ∷ xs) = hlevel (prop x, All-prop xs)

  -- `All` of propositions passes along a permutation.
  pub All-perm : {l r : List A} → Perm l r → All P l → All P r
  All-perm {l} {r} q h = ∥∥₁_elim q (All-prop r) (λ d. All-permᴰ P d h)

module _ {A : Type 0} (eq : A → A → Bool) where
  -- No two elements at different places are the same by the test.
  abbrev pub Apart : List A → Type 0
  Apart [] = Unit
  Apart (x ∷ xs) = All (λ y. eq x y ≡ false) xs × Apart xs

  Apart-prop : (l : List A) → IsProp (Apart l)
  Apart-prop [] = hlevel
  Apart-prop (x ∷ xs) = hlevel (All-prop (λ y. eq x y ≡ false) (λ y. hlevel) xs, Apart-prop xs)

  module _ (symm : (x y : A) → eq x y ≡ false → eq y x ≡ false) where
    Apart-permᴰ : {l r : List A} → Permᴰ l r → Apart l → Apart r
    Apart-permᴰ Permᴰ.nil h = h
    Apart-permᴰ (Permᴰ.cons {a} {b} {l₁} {l₂} e d) (h, hs) = (
      subst (λ t. All (λ y. eq t y ≡ false) l₂) e (All-permᴰ (λ y. eq a y ≡ false) d h),
      Apart-permᴰ d hs,
    )
    Apart-permᴰ (Permᴰ.swap {a} {b} {a'} {b'} {l} e e') ((ab, al), (bl, ls)) = (
      (
        subst (λ t. eq t b' ≡ false) e' (subst (λ t. eq b t ≡ false) e (symm a b ab)),
        subst (λ t. All (λ y. eq t y ≡ false) l) e' bl,
      ),
      (subst (λ t. All (λ y. eq t y ≡ false) l) e al, ls),
    )
    Apart-permᴰ (Permᴰ.trans d d') h = Apart-permᴰ d' (Apart-permᴰ d h)

    pub Apart-perm : {l r : List A} → Perm l r → Apart l → Apart r
    Apart-perm {l} {r} q h = ∥∥₁_elim q (Apart-prop r) (λ d. Apart-permᴰ d h)

  pub Apart-append :
      (xs ys : List A) → Apart (xs ++ ys) → (y : A) → In y ys → All (λ x. eq x y ≡ false) xs
  Apart-append [] ys h y i = tt
  Apart-append (x ∷ xs) ys (h, hs) y i =
      (All-lookup (λ y. eq x y ≡ false) ys (All-right _ xs ys h) i, Apart-append xs ys hs y i)
