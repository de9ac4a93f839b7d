-- ===== src/Uploader/Upload.antt =====
-- UploadAndGetIDs, Upload and UploadBatch of internal/uploader/uploader.go.
pub mod Delivery
use tidewatch.Base.{ℕ, zero, suc, ◌+◌, Option, none, some, List, [], ◌∷◌, ◌++◌, Sorter, gather}
use tidewatch.Base.Int.{ℤ, pos}
use tidewatch.Models.{Metric}
use tidewatch.Uploader.Jsonl.{Wire}
use tidewatch.Uploader.Errors.{UploadError}
use tidewatch.Uploader.Retry.{Remote, Attempt, Run, upload_chunk_with_retry}
use tidewatch.Uploader.Chunks.{
  Chunk, BuildError, Built, built, failed, metric_time_le, build_chunks,
}

pub data Failure : Type 0 where
  not_built : BuildError → Failure
  -- "failed to upload chunk %d/%d", the number counted from 0
  chunk_failed : ℕ → UploadError → Failure

-- An uploader: what it takes from elsewhere, its settings, its chunk size.
pub record Uploader : Type 0 where
  pub wire : Wire
  pub by_time : Sorter metric_time_le
  pub remote : Remote
  pub chunk_size : ℤ

-- The answer of an upload, and the chunks that the server has taken.
pub record Upload (A : Type 0) : Type 0 where
  pub error : Option Failure
  pub value : A
  pub taken : List Chunk

-- The upload of the chunks in turn, up to the first that fails; `env` has the attempts of each chunk.
unfoldable pub upload_chunks :
    Remote → (ℕ → ℕ → Attempt) → ℕ → List Chunk → Option Failure × List Chunk
upload_chunks u env i [] = (none, [])
upload_chunks u env i (c ∷ cs) = elim (upload_chunk_with_retry u (env i)).outcome [
  | some e ↦ (some (chunk_failed i e), [])
  | none ↦ let (error, taken) = upload_chunks u env (i + 1) cs in (error, c ∷ taken)
]

abbrev answer : List ℤ → Option Failure × List Chunk → Upload (List ℤ)
answer ids (none, taken) = record { error = none; value = ids; taken = taken }
answer ids (some e, taken) = record { error = some e; value = []; taken = taken }

unfoldable pub upload_built : Uploader → (ℕ → ℕ → Attempt) → Built (List Chunk) → Upload (List ℤ)
unfolding upload_chunks
upload_built u env (failed e) = record { error = some (not_built e); value = []; taken = [] }
upload_built u env (built chunks) =
    answer (gather (λ c. c.included_ids) chunks) (upload_chunks u.remote env 0 chunks)

unfoldable pub upload_and_get_ids : Uploader → (ℕ → ℕ → Attempt) → List Metric → Upload (List ℤ)
unfolding upload_built
upload_and_get_ids u env [] = record { error = none; value = []; taken = [] }
upload_and_get_ids u env (m ∷ ms) =
    upload_built u env (build_chunks u.wire u.by_time (m ∷ ms) u.chunk_size)

-- Upload drops the ids.
unfoldable pub upload : Uploader → (ℕ → ℕ → Attempt) → List Metric → Upload (Unit {0})
unfolding upload_and_get_ids
upload u env ms =
    let r = upload_and_get_ids u env ms in record { error = r.error; value = tt; taken = r.taken }

-- UploadBatch stops at the first batch that fails; `envs` has the surroundings of each batch.
unfoldable pub upload_batch :
    Uploader → (ℕ → ℕ → ℕ → Attempt) → ℕ → List (List Metric) → Upload (Unit {0})
unfolding upload
upload_batch u envs i [] = record { error = none; value = tt; taken = [] }
upload_batch u envs i (b ∷ bs) =
    let first = upload u (envs i) b in
    elim first.error [
      | some e ↦ first
      | none ↦
          let rest = upload_batch u envs (i + 1) bs in
          record rest { taken = first.taken ++ rest.taken }
    ]
