-- ===== src/Storage/Insert/Canonical.antt =====
-- generateDedupKey of internal/storage/storage.go does not depend on the order in which Go iterates
-- over the tags.
use tidewatch.Base.{
  ◌≡◌, refl, ap, ◌∙◌, true, inl, inr, ◌⊎◌, List, [], ◌∷◌, arith, Text, text_le, lookup, Perm,
  insertion_sort, insert_sorted,
}
use mathlib.Core.Logic.{∥∥₁_elim}
use mathlib.Core.List.{Permᴰ}
use tidewatch.Models.{Metric, Tags}
use tidewatch.Storage.Codec.{Codec}
use tidewatch.Storage.Insert.{keys, pick, sorted_tags, dedup_data, generate_dedup_key}

text_le_total : (s t : Text) → (text_le s t ≡ true) ⊎ (text_le t s ≡ true)
unfolding text_le
text_le_total [] t = inl refl
text_le_total (c ∷ s) [] = inr refl
text_le_total (c ∷ s) (d ∷ t) = elim (text_le_total s t) [
  | inl h ↦ ground (arith, h)
  | inr h ↦ ground (arith, h)
]

text_le_trans : (s t u : Text) → text_le s t ≡ true → text_le t u ≡ true → text_le s u ≡ true
unfolding text_le
text_le_trans [] t u h k = refl
text_le_trans (c ∷ s) [] u h k = cc
text_le_trans (c ∷ s) (d ∷ t) [] h k = cc
text_le_trans (c ∷ s) (d ∷ t) (e ∷ u) h k = ground (arith, text_le_trans s t u, h, k)

text_le_antisymm : (s t : Text) → text_le s t ≡ true → text_le t s ≡ true → s ≡ t
unfolding text_le
text_le_antisymm [] [] h k = refl
text_le_antisymm [] (d ∷ t) h k = cc
text_le_antisymm (c ∷ s) [] h k = cc
text_le_antisymm (c ∷ s) (d ∷ t) h k = ground (arith, text_le_antisymm s t, h, k)

-- two keys go into a sorted list in either order
insert_sorted_comm :
    (a b : Text) (l : List Text)
    → insert_sorted text_le a (insert_sorted text_le b l)
      ≡ insert_sorted text_le b (insert_sorted text_le a l)
unfolding insert_sorted
insert_sorted_comm a b [] = ground (arith, text_le_total a b, text_le_antisymm a b)
insert_sorted_comm a b (x ∷ l) = ground (
  arith,
  insert_sorted_comm a b l,
  text_le_total a b,
  text_le_antisymm a b,
  text_le_trans a b x,
  text_le_trans b a x,
  text_le_total a x,
  text_le_total b x,
)

insertion_sort-eqᴰ :
    {l r : List Text} → Permᴰ l r → insertion_sort text_le l ≡ insertion_sort text_le r
unfolding insertion_sort
insertion_sort-eqᴰ Permᴰ.nil = refl
insertion_sort-eqᴰ (Permᴰ.cons e d) = (λ i. insert_sorted text_le (e i) (insertion_sort-eqᴰ d i))
insertion_sort-eqᴰ (Permᴰ.swap {a} {b} {a'} {b'} {l} e e') =
    insert_sorted_comm a b (insertion_sort text_le l)
    ∙ (λ i. insert_sorted text_le (e' i) (insert_sorted text_le (e i) (insertion_sort text_le l)))
insertion_sort-eqᴰ (Permᴰ.trans d d') = insertion_sort-eqᴰ d ∙ insertion_sort-eqᴰ d'

insertion_sort-eq :
    {l r : List Text} → Perm l r → insertion_sort text_le l ≡ insertion_sort text_le r
insertion_sort-eq p = ∥∥₁_elim p (hlevel) insertion_sort-eqᴰ

pick-eq :
    (t u : Tags) (ks : List Text) (out : Tags)
    → ((k : Text) → lookup k t ≡ lookup k u)
    → pick t ks out ≡ pick u ks out
unfolding pick
pick-eq t u [] out h = refl
pick-eq t u (k ∷ ks) out h = rw (h k) (pick-eq t u ks _ h)

-- Two metrics that agree in all but their value and value text, and whose tags have the same keys, in
-- whatever order Go iterates over them, with the same values, have the same dedup key.
pub generate_dedup_key-order :
    (c : Codec) (m n : Metric)
    → m.name ≡ n.name
    → m.timestamp_ms ≡ n.timestamp_ms
    → m.device_id ≡ n.device_id
    → m.value_type ≡ n.value_type
    → Perm (keys m.tags) (keys n.tags)
    → ((k : Text) → lookup k m.tags ≡ lookup k n.tags)
    → generate_dedup_key c m ≡ generate_dedup_key c n
unfolding generate_dedup_key dedup_data sorted_tags
generate_dedup_key-order c m n name time device type same_keys same_tags =
    let same : sorted_tags m.tags ≡ sorted_tags n.tags =
      ap (λ ks. pick m.tags ks []) (insertion_sort-eq same_keys)
      ∙ pick-eq m.tags n.tags (insertion_sort text_le (keys n.tags)) [] same_tags in
    λ i. c.digest (record {
      name = name i;
      timestamp_ms = time i;
      device_id = device i;
      tags = same i;
      value_type = type i;
    })
