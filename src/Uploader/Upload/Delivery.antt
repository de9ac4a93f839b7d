-- ===== src/Uploader/Upload/Delivery.antt =====
-- Which chunks the server has when UploadAndGetIDs returns.
use tidewatch.Base.{
  ℕ, ◌+◌, ◌≡◌, refl, ap, subst, none, some, inl, inr, ◌⊎◌, List, [], ◌∷◌, ◌++◌, Option-cases,
  gather, keep,
}
use tidewatch.Base.Int.{ℤ}
use tidewatch.Models.{Metric}
use tidewatch.Uploader.Chunks.{Chunk, BuildError, Built, built, failed, build_chunks, positive_size}
use tidewatch.Uploader.Errors.{UploadError}
use tidewatch.Uploader.Chunks.Total.{build_chunks-Covers}
use tidewatch.Uploader.Chunks.Complete.{Covers, Covers-none, ids_in}
use tidewatch.Uploader.Retry.{Remote, Attempt, upload_chunk_with_retry}
use tidewatch.Uploader.Upload.{
  Uploader, Upload, chunk_failed, not_built, upload_chunks, upload_built, upload_and_get_ids,
}

-- What an upload of `ms` did, by its answer.
pub data Delivered (u : Uploader) (ms : List Metric) : Upload (List ℤ) → Type 0 where
  -- no error: the server has every numeric metric, and the ids are those that its chunks report
  complete :
      (taken : List Chunk)
      → Covers u.wire (positive_size u.chunk_size) ms taken
      → Delivered u ms (record { error = none; value = ids_in taken; taken = taken })
  -- a chunk failed: no id is returned, and the server has a beginning of the chunks
  partial :
      (i : ℕ) (e : UploadError) (taken rest : List Chunk)
      → Covers u.wire (positive_size u.chunk_size) ms (taken ++ rest)
      → Delivered u ms (record { error = some (chunk_failed i e); value = []; taken = taken })
  -- the chunks could not be built: nothing was sent
  unsent :
      (e : BuildError)
      → Delivered u ms (record { error = some (not_built e); value = []; taken = [] })

answer_cases :
    (u : Remote) (env : ℕ → ℕ → Attempt) (i : ℕ) (cs : List Chunk)
    → (upload_chunks u env i cs ≡ (none, cs))
      ⊎ ((k : ℕ) × (e : UploadError) × (taken : List Chunk) × (rest : List Chunk) × (upload_chunks u
              env i cs
            ≡ (some (chunk_failed k e), taken))
          × (cs ≡ taken ++ rest))
unfolding upload_chunks
answer_cases u env i [] = inl refl
answer_cases u env i (c ∷ cs) = elim (Option-cases (upload_chunk_with_retry u (env i)).outcome) [
  | inr (e, bad) ↦ rw (bad, upload_chunks) (inr (i, e, [], c ∷ cs, refl, refl))
  | inl ok ↦ elim (answer_cases u env (i + 1) cs) [
    | inl all ↦ rw (ok, upload_chunks) (inl (rw all refl))
    | inr (k, e, taken, rest, h, split) ↦
        rw (ok, upload_chunks) (inr (k, e, c ∷ taken, rest, rw h refl, ap (◌∷◌ c) split))
  ]
]

upload_built-Delivered :
    (u : Uploader) (env : ℕ → ℕ → Attempt) (ms : List Metric) (r : Built (List Chunk))
    → build_chunks u.wire u.by_time ms u.chunk_size ≡ r
    → Delivered u ms (upload_built u env r)
unfolding upload_built
upload_built-Delivered u env ms (failed e) h = unsent e
upload_built-Delivered u env ms (built chunks) h =
    let covers = build_chunks-Covers u.wire u.by_time ms u.chunk_size chunks h in
    elim (answer_cases u.remote env 0 chunks) [
      | inl all ↦ rw all (complete chunks covers)
      | inr (k, e, taken, rest, q, split) ↦ rw q (
          partial k e taken rest
            (subst (Covers u.wire (positive_size u.chunk_size) ms) split covers))
    ]

nothing-Covers : (u : Uploader) → Covers u.wire (positive_size u.chunk_size) [] []
nothing-Covers u = Covers-none u.wire (positive_size u.chunk_size) [] (unfold keep in refl)

-- UploadAndGetIDs returns without an error only when the server has taken chunks that hold exactly the
-- numeric metrics of the input, and then returns exactly the ids that those chunks report. On an error
-- it returns no id: either a chunk failed, and the server has only a beginning of the chunks, or the
-- chunks could not be built, and nothing was sent.
pub upload_and_get_ids-Delivered :
    (u : Uploader) (env : ℕ → ℕ → Attempt) (ms : List Metric)
    → Delivered u ms (upload_and_get_ids u env ms)
unfolding upload_and_get_ids
upload_and_get_ids-Delivered u env [] = unfold gather in complete [] (nothing-Covers u)
upload_and_get_ids-Delivered u env (m ∷ ms) = upload_built-Delivered u env (m ∷ ms) _ refl
