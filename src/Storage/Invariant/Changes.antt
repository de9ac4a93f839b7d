-- ===== src/Storage/Invariant/Changes.antt =====
-- MarkUploaded and DeleteBefore of storage.go keep the table well formed.
use tidewatch.Base.{
  ℕ, ◌≤◌, ◌≡◌, refl, ◌∙◌, inl, inr, Option, none, some, Bool, false, List, [], ◌∷◌, map, Text,
  arith, Bool-cases, keep,
}
use tidewatch.Base.Int.{ℤ}
use tidewatch.Storage.Table.{Row, Db, has_key}
use tidewatch.Storage.Codec.{OnOk-bind, fail_if, begin_failed, commit_failed, update_failed}
use tidewatch.Storage.Update.{
  TxFaults, DeleteFaults, set_uploaded, mark_transaction, mark_uploaded, delete_before,
}
use tidewatch.Storage.Invariant.{
  IdsBetween, IsFresh, UniqueKeys, FlagsAreBits, IsWellFormed, or_rollback-IsWellFormed,
}

-- setting the flag

IdsBetween-set_uploaded :
    (ids : List ℤ) (lo : ℕ) (rs : List Row) (hi : ℕ)
    → IdsBetween lo rs hi
    → IdsBetween lo (map (set_uploaded ids) rs) hi
unfolding set_uploaded
IdsBetween-set_uploaded ids lo [] hi h = h
IdsBetween-set_uploaded ids lo (r ∷ rs) hi (h, hs) =
    let rest = IdsBetween-set_uploaded ids r.id rs hi hs in ground arith

has_key-set_uploaded :
    (ids : List ℤ) (k : Text) (rs : List Row) → has_key k (map (set_uploaded ids) rs) ≡ has_key k rs
unfolding set_uploaded has_key
has_key-set_uploaded ids k [] = refl
has_key-set_uploaded ids k (r ∷ rs) = ground (arith, has_key-set_uploaded ids k rs)

dedup_key-set_uploaded : (ids : List ℤ) (r : Row) → (set_uploaded ids r).dedup_key ≡ r.dedup_key
unfolding set_uploaded
dedup_key-set_uploaded ids r = ground arith

IsFresh-set_uploaded :
    (ids : List ℤ) (o : Option Text) (rs : List Row)
    → IsFresh o rs
    → IsFresh o (map (set_uploaded ids) rs)
IsFresh-set_uploaded ids none rs f = tt
IsFresh-set_uploaded ids (some k) rs f = has_key-set_uploaded ids k rs ∙ f

UniqueKeys-set_uploaded :
    (ids : List ℤ) (rs : List Row) → UniqueKeys rs → UniqueKeys (map (set_uploaded ids) rs)
UniqueKeys-set_uploaded ids [] u = tt
UniqueKeys-set_uploaded ids (r ∷ rs) (f, u) = (
  rw (dedup_key-set_uploaded ids r) (IsFresh-set_uploaded ids r.dedup_key rs f),
  UniqueKeys-set_uploaded ids rs u,
)

FlagsAreBits-set_uploaded :
    (ids : List ℤ) (rs : List Row) → FlagsAreBits rs → FlagsAreBits (map (set_uploaded ids) rs)
unfolding set_uploaded
FlagsAreBits-set_uploaded ids [] b = tt
FlagsAreBits-set_uploaded ids (r ∷ rs) (br, b) =
    let rest = FlagsAreBits-set_uploaded ids rs b in ground arith

pub mark_uploaded-IsWellFormed :
    (f : TxFaults) (ids : List ℤ) (db : Db)
    → IsWellFormed db
    → IsWellFormed (mark_uploaded f ids db).1
unfolding mark_uploaded mark_transaction
mark_uploaded-IsWellFormed f [] db w = w
mark_uploaded-IsWellFormed f (i ∷ is) db w =
    or_rollback-IsWellFormed db (mark_transaction f (i ∷ is) db) w (
      OnOk-bind IsWellFormed (fail_if f.begins begin_failed) _ λ _ _.
        OnOk-bind IsWellFormed (fail_if f.exec update_failed) _ λ _ _.
          OnOk-bind IsWellFormed (fail_if f.commits commit_failed) _ λ _ _. record {
            ids = IdsBetween-set_uploaded (i ∷ is) 0 db.rows db.seq w.ids;
            unique = UniqueKeys-set_uploaded (i ∷ is) db.rows w.unique;
            flags = FlagsAreBits-set_uploaded (i ∷ is) db.rows w.flags;
          })

-- deleting rows

IdsBetween-weaken :
    (lo lo' : ℕ) (rs : List Row) (hi : ℕ) → lo' ≤ lo → IdsBetween lo rs hi → IdsBetween lo' rs hi
IdsBetween-weaken lo lo' [] hi le h = omega arith
IdsBetween-weaken lo lo' (r ∷ rs) hi le (h, hs) = (omega arith, hs)

module _ (p : Row → Bool) where
  IdsBetween-keep :
      (lo : ℕ) (rs : List Row) (hi : ℕ) → IdsBetween lo rs hi → IdsBetween lo (keep p rs) hi
  unfolding keep
  IdsBetween-keep lo [] hi h = h
  IdsBetween-keep lo (r ∷ rs) hi (h, hs) = elim (Bool-cases (p r)) [
    | inl e ↦ rw e (h, IdsBetween-keep r.id rs hi hs)
    | inr e ↦
        rw e
          (IdsBetween-weaken r.id lo (keep p rs) hi (omega arith) (IdsBetween-keep r.id rs hi hs))
  ]

  has_key-keep : (k : Text) (rs : List Row) → has_key k rs ≡ false → has_key k (keep p rs) ≡ false
  unfolding keep has_key
  has_key-keep k [] h = refl
  has_key-keep k (r ∷ rs) h = ground (arith, has_key-keep k rs)

  IsFresh-keep : (o : Option Text) (rs : List Row) → IsFresh o rs → IsFresh o (keep p rs)
  IsFresh-keep none rs f = tt
  IsFresh-keep (some k) rs f = has_key-keep k rs f

  UniqueKeys-keep : (rs : List Row) → UniqueKeys rs → UniqueKeys (keep p rs)
  unfolding keep
  UniqueKeys-keep [] u = tt
  UniqueKeys-keep (r ∷ rs) (f, u) = elim (Bool-cases (p r)) [
    | inl e ↦ rw e (IsFresh-keep r.dedup_key rs f, UniqueKeys-keep rs u)
    | inr e ↦ rw e (UniqueKeys-keep rs u)
  ]

  FlagsAreBits-keep : (rs : List Row) → FlagsAreBits rs → FlagsAreBits (keep p rs)
  unfolding keep
  FlagsAreBits-keep [] b = tt
  FlagsAreBits-keep (r ∷ rs) (br, b) = let rest = FlagsAreBits-keep rs b in ground arith

pub delete_before-IsWellFormed :
    (f : DeleteFaults) (t : ℤ) (db : Db) → IsWellFormed db → IsWellFormed (delete_before f t db).1
unfolding delete_before
delete_before-IsWellFormed f t db w = elim (Bool-cases f.exec) [
  | inl e ↦ rw e w
  | inr e ↦ rw e (record {
    ids = IdsBetween-keep _ 0 db.rows db.seq w.ids;
    unique = UniqueKeys-keep _ db.rows w.unique;
    flags = FlagsAreBits-keep _ db.rows w.flags;
  })
]
