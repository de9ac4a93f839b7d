-- ===== src/Pipeline/Drain.antt =====
-- What a round of uploadMetrics leaves pending, and how rounds drain the queue.
use Prim.Native.Nat.{min}
use tidewatch.Base.{
  ℕ, suc, ◌+◌, ◌*◌, ◌-◌, ◌≡◌, refl, sym, ap, ap₂, ◌∙◌, Bool, false, not, none, List, [], ◌∷◌, ◌++◌,
  arith, map, length, length-append, length-take, length-map, keep, keep-append, keep-perm,
  keep-All, keep-All_not, All, All-imp, Perm, Perm-of_eq, length-perm,
}
use mathlib.Core.List.Perm
use tidewatch.Base.Int.{ℤ, pos}
use tidewatch.Storage.Table.{Row, Db}
use tidewatch.Storage.Codec.{Codec}
use tidewatch.Storage.Insert.{or_rollback}
use tidewatch.Storage.Select.{is_pending, limit_to, unuploaded_rows}
use tidewatch.Storage.Update.{TxFaults, has_id, set_uploaded, mark_uploaded, mark_transaction}
use tidewatch.Storage.Invariant.{IsWellFormed}
use tidewatch.Storage.Invariant.Changes.{mark_uploaded-IsWellFormed}
use tidewatch.Pipeline.Rounds.{Setup, Weather, Round, mark_ids, upload_metrics}
use tidewatch.Pipeline.Selected.{row_id, IsUnreserved}
use tidewatch.Pipeline.Split.{
  pending, later_rows, selected_have_id, later_lack_id, split_perm, has_id-perm,
}
use tidewatch.Pipeline.Marks.{IsUploadable, batch}
use tidewatch.Pipeline.Outcome.{Outcome, not_read, not_uploaded, uploaded, upload_metrics-Outcome}

-- No call of MarkUploaded's transaction fails.
pub record IsQuietTx (f : TxFaults) : Type 0 where
  pub begins : f.begins ≡ false
  pub exec : f.exec ≡ false
  pub commits : f.commits ≡ false

map-set_uploaded_nil : (rows : List Row) → map (set_uploaded []) rows ≡ rows
unfolding set_uploaded has_id
map-set_uploaded_nil [] = refl
map-set_uploaded_nil (r ∷ rows) = ap (◌∷◌ r) (map-set_uploaded_nil rows)

mark_ids-rows :
    (f : TxFaults) (ids : List ℤ) (db : Db)
    → IsQuietTx f
    → (mark_ids f ids db).rows ≡ map (set_uploaded ids) db.rows
unfolding mark_ids mark_uploaded mark_transaction
mark_ids-rows f [] db q = sym (map-set_uploaded_nil db.rows)
mark_ids-rows f (i ∷ is) db q = rw (q.begins, q.exec, q.commits, or_rollback) refl

keep_pending-set_uploaded :
    (ids : List ℤ) (rows : List Row)
    → keep is_pending (map (set_uploaded ids) rows)
      ≡ keep (λ r. not (has_id ids r.id)) (keep is_pending rows)
unfolding keep set_uploaded is_pending
keep_pending-set_uploaded ids [] = refl
keep_pending-set_uploaded ids (r ∷ rows) = ground (arith, keep_pending-set_uploaded ids rows)

module _ (s : Setup) (db : Db) (w : IsWellFormed db) where
  -- without the ids of the batch, the later rows are left of the pending ones
  unmarked_perm :
      (ids : List ℤ)
      → Perm ids (map row_id (batch s db))
      → Perm
          (keep (λ r. not (has_id ids r.id)) (pending db))
          (later_rows s.by_upload s.batch_size db)
  unmarked_perm ids p =
      let lacks : Row → Bool = λ r. not (has_id ids r.id) in
      let now = batch s db in
      let later = later_rows s.by_upload s.batch_size db in
      let out : keep lacks now ≡ [] = keep-All_not lacks now (
        All-imp (λ r h. ap not (has_id-perm r.id p ∙ h)) now
          (selected_have_id s.by_upload s.batch_size db w)) in
      let kept : keep lacks later ≡ later = keep-All lacks later (
        All-imp (λ r h. ap not (has_id-perm r.id p ∙ h)) later
          (later_lack_id s.by_upload s.batch_size db w)) in
      Perm.trans (keep-perm lacks (Perm.symm (split_perm s.by_upload s.batch_size db w)))
        (Perm-of_eq (keep-append lacks now later ∙ ap₂ ◌++◌ out kept))

-- What a round without an error and with a working MarkUploaded does to the queue.
abbrev pub Progress : Setup → Db → Round → Type 0
Progress s db r = Perm (batch s db ++ pending r.db) (pending db) × (r.count ≡ length (batch s db))

pub Outcome-Progress :
    (s : Setup) (e : Weather) (db : Db) (r : Round)
    → IsWellFormed db
    → IsQuietTx e.mark
    → r.error ≡ none
    → Outcome s e db r
    → Progress s db r
Outcome-Progress s e db r w q h (not_read bad) = absurd (cc)
Outcome-Progress s e db r w q h (not_uploaded f taken) = absurd (cc)
Outcome-Progress s e db r w q h (uploaded ids taken ms scanned covers p) = (
  Perm.trans
      (Perm.append (Perm.refl (batch s db)) (
        Perm.trans
          (Perm-of_eq (
            ap (keep is_pending) (mark_ids-rows e.mark ids db q)
            ∙ keep_pending-set_uploaded ids db.rows))
          (unmarked_perm s db w ids p)))
      (split_perm s.by_upload s.batch_size db w),
  length-perm p ∙ length-map row_id (batch s db),
)

set_uploaded-tags : (ids : List ℤ) (r : Row) → (set_uploaded ids r).tags_json ≡ r.tags_json
unfolding set_uploaded
set_uploaded-tags ids r = ground arith

set_uploaded-IsUnreserved :
    (c : Codec) (ids : List ℤ) (rows : List Row)
    → All (IsUnreserved c) rows
    → All (IsUnreserved c) (map (set_uploaded ids) rows)
set_uploaded-IsUnreserved c ids [] h = tt
set_uploaded-IsUnreserved c ids (r ∷ rows) (h, hs) =
    (rw (set_uploaded-tags ids r) h, set_uploaded-IsUnreserved c ids rows hs)

mark_ids-IsUploadable :
    (c : Codec) (f : TxFaults) (ids : List ℤ) (db : Db)
    → IsQuietTx f
    → IsUploadable c db
    → IsUploadable c (mark_ids f ids db)
unfolding mark_ids mark_uploaded mark_transaction
mark_ids-IsUploadable c f [] db q u = u
mark_ids-IsUploadable c f (i ∷ is) db q u = record {
  formed = mark_uploaded-IsWellFormed f (i ∷ is) db u.formed;
  in_range = rw (q.begins, q.exec, q.commits, or_rollback) u.in_range;
  unreserved =
      rw (mark_ids-rows f (i ∷ is) db q)
        (set_uploaded-IsUnreserved c (i ∷ is) db.rows u.unreserved);
}

Outcome-IsUploadable :
    (s : Setup) (e : Weather) (db : Db) (r : Round)
    → IsUploadable s.codec db
    → IsQuietTx e.mark
    → Outcome s e db r
    → IsUploadable s.codec r.db
Outcome-IsUploadable s e db r u q (not_read bad) = u
Outcome-IsUploadable s e db r u q (not_uploaded f taken) = u
Outcome-IsUploadable s e db r u q (uploaded ids taken ms scanned covers p) =
    mark_ids-IsUploadable s.codec e.mark ids db q u

length-batch :
    (s : Setup) (db : Db) (n : ℕ)
    → s.batch_size ≡ pos (suc n)
    → length (batch s db) ≡ min (suc n) (length (pending db))
unfolding unuploaded_rows limit_to
length-batch s db n e = rw e (
    length-take (suc n) (s.by_upload.sort (pending db))
    ∙ ap (min (suc n)) (length-perm (s.by_upload.sort-perm (pending db))))

-- A round without an error, with a working MarkUploaded: the rows of the batch and the rows that are
-- pending afterwards are together the rows that were pending before, each as often; and the round
-- counts the rows of the batch. So a round marks exactly its batch.
pub upload_metrics-Progress :
    (s : Setup) (e : Weather) (db : Db)
    → IsUploadable s.codec db
    → IsQuietTx e.mark
    → (upload_metrics s e db).error ≡ none
    → Progress s db (upload_metrics s e db)
upload_metrics-Progress s e db u q h =
    Outcome-Progress s e db (upload_metrics s e db) u.formed q h (upload_metrics-Outcome s e db u)

-- Rounds one after the other, as the ticks of the upload loop run them.
pub drain : Setup → List Weather → Db → Db
drain s [] db = db
drain s (e ∷ es) db = drain s es (upload_metrics s e db).db

-- Every round returns no error and has a working MarkUploaded.
abbrev pub Succeed : Setup → List Weather → Db → Type 0
Succeed s [] db = Unit
Succeed s (e ∷ es) db =
    IsQuietTx e.mark
    × ((upload_metrics s e db).error ≡ none)
    × Succeed s es (upload_metrics s e db).db

-- Rounds that succeed take their batch size off the queue, each time, until it is empty: after k of
-- them with a positive batch size b, the number of pending rows is what it was less k * b, and 0 where
-- that is negative.
pub drain-length :
    (s : Setup) (n : ℕ) (es : List Weather) (db : Db)
    → s.batch_size ≡ pos (suc n)
    → IsUploadable s.codec db
    → Succeed s es db
    → length (pending (drain s es db)) ≡ length (pending db) - length es * suc n
unfolding drain
drain-length s n [] db b u h = omega arith
drain-length s n (e ∷ es) db b u (q, ok, hs) =
    let next = (upload_metrics s e db).db in
    let next_u : IsUploadable s.codec next =
      Outcome-IsUploadable s e db _ u q (upload_metrics-Outcome s e db u) in
    let total : length (batch s db) + length (pending next) ≡ length (pending db) =
      sym (length-append (batch s db) (pending next))
      ∙ length-perm (upload_metrics-Progress s e db u q ok).0 in
    omega (arith, total, length-batch s db n b, drain-length s n es next b next_u hs)
