-- ===== src/Pipeline/Split.antt =====
-- The pending rows, split into those that a batch selects and the rest; and which ids tell them apart.
use tidewatch.Base.{
  ℕ, ◌≤◌, ◌<◌, ◌≡◌, refl, ap, ◌∙◌, Bool, true, false, ◌||◌, ◌==◌, inl, inr, List, [], ◌∷◌, ◌++◌,
  arith, map, keep, All, All-imp, All-keep, All-of_In, Bool-cases, In, Apart, Apart-perm,
  Apart-append, Sorter, Perm,
}
use mathlib.Core.Logic.{∥∥₁_elim}
use mathlib.Core.List.{Permᴰ}
use mathlib.Core.List.Perm
use tidewatch.Base.Int.{ℤ, pos, eqb_ℤ}
use tidewatch.Storage.Table.{Row, Db}
use tidewatch.Storage.Select.{is_pending, upload_le, limit_to, unuploaded_rows}
use tidewatch.Storage.Select.Answers.{limit_to-split}
use tidewatch.Storage.Update.{has_id}
use tidewatch.Storage.Invariant.{IdsBetween, IsWellFormed}
use tidewatch.Pipeline.Selected.{row_id}

abbrev pub pending : Db → List Row
pending db = keep is_pending db.rows

pub limit_to_split : (z : ℤ) (l : List Row) → (rest : List Row) × (limit_to z l ++ rest ≡ l)
limit_to_split z l = let (rest, split, _) = limit_to-split z l in (rest, split)

-- The rows that the batch leaves for later.
pub later_rows : Sorter upload_le → ℤ → Db → List Row
later_rows by_upload limit db = (limit_to_split limit (by_upload.sort (pending db))).0

pub split_sorted :
    (by_upload : Sorter upload_le) (limit : ℤ) (db : Db)
    → unuploaded_rows by_upload limit db ++ later_rows by_upload limit db
      ≡ by_upload.sort (pending db)
unfolding unuploaded_rows later_rows
split_sorted by_upload limit db = (limit_to_split limit (by_upload.sort (pending db))).1

-- ids

abbrev pub same_id : Row → Row → Bool
same_id a b = a.id == b.id

pub IdsBetween-All :
    (lo : ℕ) (rs : List Row) (hi : ℕ)
    → IdsBetween lo rs hi
    → All (λ r. (lo < r.id) × (r.id ≤ hi)) rs × (lo ≤ hi)
IdsBetween-All lo [] hi h = (tt, h)
IdsBetween-All lo (r ∷ rs) hi (h, hs) =
    let (all, le) = IdsBetween-All r.id rs hi hs in
    (((h, le), All-imp (λ q k. (omega arith, k.1)) rs all), omega arith)

pub IdsBetween-Apart : (lo : ℕ) (rs : List Row) (hi : ℕ) → IdsBetween lo rs hi → Apart same_id rs
IdsBetween-Apart lo [] hi h = tt
IdsBetween-Apart lo (r ∷ rs) hi (h, hs) = (
  All-imp (λ q k. let lt : r.id < q.id = k.0 in ground arith) rs (IdsBetween-All r.id rs hi hs).0,
  IdsBetween-Apart r.id rs hi hs,
)

Apart-keep : (p : Row → Bool) (rs : List Row) → Apart same_id rs → Apart same_id (keep p rs)
unfolding keep
Apart-keep p [] h = tt
Apart-keep p (r ∷ rs) (h, hs) = elim (Bool-cases (p r)) [
  | inl e ↦ rw e (All-keep (λ y. same_id r y ≡ false) p rs h, Apart-keep p rs hs)
  | inr e ↦ rw e (Apart-keep p rs hs)
]

-- membership by id

has_id-permᴰ : (n : ℕ) {is js : List ℤ} → Permᴰ is js → has_id is n ≡ has_id js n
unfolding has_id
has_id-permᴰ n Permᴰ.nil = refl
has_id-permᴰ n (Permᴰ.cons e d) = (λ i. eqb_ℤ (e i) (pos n) || has_id-permᴰ n d i)
has_id-permᴰ n (Permᴰ.swap {a} {b} {a'} {b'} {l} e e') = ground arith
has_id-permᴰ n (Permᴰ.trans d d') = has_id-permᴰ n d ∙ has_id-permᴰ n d'

pub has_id-perm : (n : ℕ) {is js : List ℤ} → Perm is js → has_id is n ≡ has_id js n
has_id-perm n p = ∥∥₁_elim p (hlevel) (has_id-permᴰ n)

pub has_id_of_In : (rs : List Row) (r : Row) → In r rs → has_id (map row_id rs) r.id ≡ true
unfolding has_id
has_id_of_In [] r i = elim i [ ]
has_id_of_In (x ∷ rs) r (inl e) = let q : r.id ≡ x.id = ap (λ (t : Row). t.id) e in ground arith
has_id_of_In (x ∷ rs) r (inr i) = ground (arith, has_id_of_In rs r i)

pub has_id_of_apart :
    (rs : List Row) (r : Row)
    → All (λ q. same_id q r ≡ false) rs
    → has_id (map row_id rs) r.id ≡ false
unfolding has_id
has_id_of_apart [] r h = refl
has_id_of_apart (x ∷ rs) r (h, hs) = ground (arith, has_id_of_apart rs r hs)

same_id_symm : (a b : Row) → same_id a b ≡ false → same_id b a ≡ false
same_id_symm a b h = ground arith

-- What tells the selected rows from the later ones: their ids.
module _ (by_upload : Sorter upload_le) (limit : ℤ) (db : Db) (w : IsWellFormed db) where
  sorted-Apart : Apart same_id (unuploaded_rows by_upload limit db ++ later_rows by_upload limit db)
  sorted-Apart = rw (split_sorted by_upload limit db) (
      Apart-perm same_id same_id_symm (Perm.symm (by_upload.sort-perm (pending db)))
        (Apart-keep is_pending db.rows (IdsBetween-Apart 0 db.rows db.seq w.ids)))

  pub selected_have_id :
      All
        (λ r. has_id (map row_id (unuploaded_rows by_upload limit db)) r.id ≡ true)
        (unuploaded_rows by_upload limit db)
  selected_have_id =
      All-of_In _ (unuploaded_rows by_upload limit db)
        (λ r i. has_id_of_In (unuploaded_rows by_upload limit db) r i)

  pub later_lack_id :
      All
        (λ r. has_id (map row_id (unuploaded_rows by_upload limit db)) r.id ≡ false)
        (later_rows by_upload limit db)
  later_lack_id = All-of_In _ (later_rows by_upload limit db) λ r i.
      has_id_of_apart (unuploaded_rows by_upload limit db) r (
        Apart-append same_id (unuploaded_rows by_upload limit db) (later_rows by_upload limit db)
          sorted-Apart r i)

  -- The selected rows and the later ones are the pending rows, in some order.
  pub split_perm :
      Perm (unuploaded_rows by_upload limit db ++ later_rows by_upload limit db) (pending db)
  split_perm = rw (split_sorted by_upload limit db) (by_upload.sort-perm (pending db))
