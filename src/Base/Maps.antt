-- ===== src/Base/Maps.antt =====
-- Go maps with string keys, as association lists. Each key stands once; where the program
-- iterates over a map, the order of the list stands for the order that Go chooses.
use mathlib.Core.Path.{◌≡◌, refl}
use mathlib.Core.Option.{Option, none, some}
use mathlib.Core.List.{List, [], ◌∷◌}
use native.Mathlib.Omega.{arith}
use tidewatch.Base.Tests.{if◌then◌else◌}
use tidewatch.Base.Strings.{Text, text_eq, text_eq_iff}

abbrev pub Dict {ℓ} : Type ℓ → Type ℓ
Dict V = List (Text × V)

module _ {ℓ} {V : Type ℓ} where
  -- `v, ok := m[k]`
  unfoldable pub lookup : Text → Dict V → Option V
  lookup k [] = none
  lookup k ((j, v) ∷ m) = if text_eq j k then some v else lookup k m

  -- `m[k] = v`
  unfoldable pub insert : Text → V → Dict V → Dict V
  insert k v [] = (k, v) ∷ []
  insert k v ((j, w) ∷ m) = if text_eq j k then (k, v) ∷ m else (j, w) ∷ insert k v m

  pub lookup-insert :
      (k j : Text) (v : V) (m : Dict V)
      → lookup j (insert k v m) ≡ (if text_eq k j then some v else lookup j m)
  unfolding lookup insert
  lookup-insert k j v [] = refl
  lookup-insert k j v ((i, w) ∷ m) =
      ground (arith, text_eq_iff k j, text_eq_iff i k, text_eq_iff i j, lookup-insert k j v m)

  pub lookup-insert_self : (k : Text) (v : V) (m : Dict V) → lookup k (insert k v m) ≡ some v
  lookup-insert_self k v m = rw (lookup-insert k k v m, (text_eq_iff k k).1 refl)

  -- `for k, v := range src { dst[k] = v }`
  unfoldable pub overlay : Dict V → Dict V → Dict V
  overlay dst [] = dst
  overlay dst ((k, v) ∷ src) = overlay (insert k v dst) src

  pub lookup-overlay :
      (k : Text) (dst src : Dict V)
      → lookup k src ≡ none
      → lookup k (overlay dst src) ≡ lookup k dst
  unfolding lookup overlay
  lookup-overlay k dst [] h = refl
  lookup-overlay k dst ((j, v) ∷ src) h = ground (
    arith,
    lookup-overlay k (insert j v dst) src,
    lookup-insert j k v dst,
    text_eq_iff j k,
    text_eq_iff k j,
  )
