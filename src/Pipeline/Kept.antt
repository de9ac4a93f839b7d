-- ===== src/Pipeline/Kept.antt =====
-- No order of the agent's loops loses a row or breaks the table.
use tidewatch.Base.{◌≡◌, refl, ap, ◌∙◌, inl, inr, ◌⊎◌, List, [], ◌∷◌, ◌++◌, map, Text, Bool-cases}
use tidewatch.Base.Int.{ℤ}
use tidewatch.Models.{Metric}
use tidewatch.Storage.Table.{Row, Db}
use tidewatch.Storage.Codec.{
  Codec, Result, ok, err, OnOk, OnOk-bind, fail_if, begin_failed, update_failed, commit_failed,
}
use tidewatch.Storage.Insert.Batch.{Outcome, committed, rolled_back, store_batch-Outcome}
use tidewatch.Pipeline.Turns.{
  Turn, take_turn, take_turns, Written, stored, untouched, batched, marked, take_turn-Written,
}
use tidewatch.Storage.Insert.{or_rollback}
use tidewatch.Storage.Update.{TxFaults, has_id, set_uploaded, mark_uploaded, mark_transaction}
use tidewatch.Storage.Invariant.{IsWellFormed, store_batch-IsWellFormed}
use tidewatch.Storage.Invariant.Changes.{mark_uploaded-IsWellFormed}
use tidewatch.Pipeline.Rounds.{Setup}
use tidewatch.Pipeline.Loops.{LoopState}

-- The same row, perhaps marked as uploaded.
abbrev pub IsSame : Row → Row → Type 0
IsSame r q = (q ≡ r) ⊎ (q ≡ record r { uploaded = 1 })

-- The rows are still there, in their places.
abbrev pub Kept : List Row → List Row → Type 0
Kept [] qs = Unit
Kept (r ∷ rs) [] = ⊥
Kept (r ∷ rs) (q ∷ qs) = IsSame r q × Kept rs qs

IsSame-trans : (r q p : Row) → IsSame r q → IsSame q p → IsSame r p
IsSame-trans r q p (inl e) (inl f) = inl (f ∙ e)
IsSame-trans r q p (inr e) (inl f) = inr (f ∙ e)
IsSame-trans r q p (inl e) (inr f) = inr (f ∙ ap (λ (r : Row). record r { uploaded = 1 }) e)
IsSame-trans r q p (inr e) (inr f) = inr (f ∙ ap (λ (r : Row). record r { uploaded = 1 }) e)

Kept-trans : (rs qs ps : List Row) → Kept rs qs → Kept qs ps → Kept rs ps
Kept-trans [] qs ps h k = tt
Kept-trans (r ∷ rs) [] ps h k = absurd h
Kept-trans (r ∷ rs) (q ∷ qs) [] h k = absurd k
Kept-trans (r ∷ rs) (q ∷ qs) (p ∷ ps) (h, hs) (k, ks) =
    (IsSame-trans r q p h k, Kept-trans rs qs ps hs ks)

Kept-append : (rs qs : List Row) → Kept rs (rs ++ qs)
Kept-append [] qs = tt
Kept-append (r ∷ rs) qs = (inl refl, Kept-append rs qs)

Kept-refl : (rs : List Row) → Kept rs rs
Kept-refl [] = tt
Kept-refl (r ∷ rs) = (inl refl, Kept-refl rs)

set_uploaded-IsSame : (ids : List ℤ) (r : Row) → IsSame r (set_uploaded ids r)
unfolding set_uploaded
set_uploaded-IsSame ids r = elim (Bool-cases (has_id ids r.id)) [
  | inl e ↦ inr (rw e refl)
  | inr e ↦ inl (rw e refl)
]

set_uploaded-Kept : (ids : List ℤ) (rs : List Row) → Kept rs (map (set_uploaded ids) rs)
set_uploaded-Kept ids [] = tt
set_uploaded-Kept ids (r ∷ rs) = (set_uploaded-IsSame ids r, set_uploaded-Kept ids rs)

mark_transaction-Kept :
    (f : TxFaults) (ids : List ℤ) (db : Db)
    → OnOk (λ db'. Kept db.rows db'.rows) (mark_transaction f ids db)
unfolding mark_transaction
mark_transaction-Kept f ids db = OnOk-bind _ (fail_if f.begins begin_failed) _ λ u e.
    OnOk-bind _ (fail_if f.exec update_failed) _
      λ u e. OnOk-bind _ (fail_if f.commits commit_failed) _ λ u e. set_uploaded-Kept ids db.rows

or_rollback-Kept :
    (db : Db) (r : Result Db)
    → OnOk (λ db'. Kept db.rows db'.rows) r
    → Kept db.rows (or_rollback db r).1.rows
or_rollback-Kept db (ok db') h = h
or_rollback-Kept db (err e) h = Kept-refl db.rows

mark_uploaded-Kept :
    (f : TxFaults) (ids : List ℤ) (db : Db) → Kept db.rows (mark_uploaded f ids db).1.rows
unfolding mark_uploaded
mark_uploaded-Kept f [] db = Kept-refl db.rows
mark_uploaded-Kept f (i ∷ is) db =
    or_rollback-Kept db (mark_transaction f (i ∷ is) db) (mark_transaction-Kept f (i ∷ is) db)

Outcome-Kept :
    (c : Codec) (session_id : Text) (ms : List Metric) (db db' : Db) (r : Result (Unit {0}))
    → Outcome c session_id ms db db' r
    → Kept db.rows db'.rows
Outcome-Kept c session_id ms db db' r (committed h) = rw h.extends (Kept-append db.rows h.added)
Outcome-Kept c session_id ms db db' r (rolled_back e) = rw e (Kept-refl db.rows)

Written-Kept : (c : Codec) (db db' : Db) → Written c db db' → Kept db.rows db'.rows
Written-Kept c db db' (stored untouched) = Kept-refl db.rows
Written-Kept c db db' (stored (batched f session_id ms)) =
    Outcome-Kept c session_id ms db _ _ (store_batch-Outcome c f session_id ms db)
Written-Kept c db db' (marked f ids) = mark_uploaded-Kept f ids db

Written-IsWellFormed :
    (c : Codec) (db db' : Db) → Written c db db' → IsWellFormed db → IsWellFormed db'
Written-IsWellFormed c db db' (stored untouched) w = w
Written-IsWellFormed c db db' (stored (batched f session_id ms)) w =
    store_batch-IsWellFormed c f session_id ms db w
Written-IsWellFormed c db db' (marked f ids) w = mark_uploaded-IsWellFormed f ids db w

-- Whatever turns the agent's loops take, in whatever order, and whatever fails: every row of the table
-- stays in its place, unchanged but for its mark as uploaded, and the table stays well formed.
pub take_turns-Kept :
    (s : Setup) (st : LoopState) (ts : List Turn)
    → IsWellFormed st.system.db
    → Kept st.system.db.rows (take_turns s st ts).system.db.rows
      × IsWellFormed (take_turns s st ts).system.db
unfolding take_turns
take_turns-Kept s st [] w = (Kept-refl st.system.db.rows, w)
take_turns-Kept s st (t ∷ ts) w =
    let next = take_turn s st t in
    let written = take_turn-Written s st t in
    let (kept, formed) =
      take_turns-Kept s next ts
        (Written-IsWellFormed s.codec st.system.db next.system.db written w) in
    (
      Kept-trans st.system.db.rows next.system.db.rows (take_turns s next ts).system.db.rows
          (Written-Kept s.codec st.system.db next.system.db written) kept,
      formed,
    )
