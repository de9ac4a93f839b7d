-- ===== src/Uploader/Chunks.antt =====
-- Chunk and BuildChunks of internal/uploader/victoriametrics.go.
pub mod Lines
pub mod Complete
pub mod Build
pub mod Total
use tidewatch.Base.{
  ℕ, zero, suc, ◌*◌, ◌/◌, ◌≡◌, refl, Bool, true, false, Option, none, some, List, [], ◌∷◌, ◌++◌,
  leb, ltb, if◌then◌else◌, length, take, drop, Text, Sorter,
}
use tidewatch.Base.Int.{ℤ, pos, negsuc, leb_ℤ}
use tidewatch.Models.{Metric}
use tidewatch.Uploader.Jsonl.{Wire, build_vm_jsonl}

pub record Chunk : Type 0 where
  pub metrics : List Metric
  pub included_ids : List ℤ
  pub jsonl_data : Text
  pub compressed_data : Text
  pub size : ℕ

pub data BuildError : Type 0 where
  marshal_failed compress_failed too_large out_of_fuel : BuildError

pub data Built {ℓ} (A : Type ℓ) : Type ℓ where
  built : A → Built A
  failed : BuildError → Built A

infixl 5 ◌>>=◌
abbrev pub ◌>>=◌ {ℓ κ} : {A : Type ℓ} {B : Type κ} → Built A → (A → Built B) → Built B
built a >>= f = f a
failed e >>= f = failed e

abbrev pub or_failed {ℓ} : {A : Type ℓ} → Option A → BuildError → Built A
or_failed none e = failed e
or_failed (some a) e = built a

-- MaxChunkSizeBytes
abbrev pub max_chunk_size_bytes : ℕ
max_chunk_size_bytes = 256 * 1024

-- sort.Slice by TimestampMs, which is not stable
abbrev pub metric_time_le : Metric → Metric → Bool
metric_time_le a b = leb_ℤ a.timestamp_ms b.timestamp_ms

-- `sortedMetrics[i:end]` for i = 0, chunkSize, …; as many rounds as metrics are enough.
unfoldable pub slices : ℕ → ℕ → List Metric → List (List Metric)
slices zero n ms = []
slices (suc rounds) n [] = []
slices (suc rounds) n (m ∷ ms) = take n (m ∷ ms) ∷ slices rounds n (drop n (m ∷ ms))

abbrev one_if_zero : ℕ → ℕ
one_if_zero zero = 1
one_if_zero (suc n) = suc n

unfoldable pub half_size : ℕ → ℕ
half_size n = one_if_zero (n / 2)

-- One chunk of a slice's lines, nothing for a slice with no line; `split` takes a slice that is too
-- large and has more than one metric.
unfoldable pub pack :
    Wire → (List Metric → Built (List Chunk)) → List Metric → List ℤ → Text → Built (List Chunk)
pack w split ms ids [] = built []
pack w split ms ids (b ∷ bs) = do
  compressed ← or_failed (w.gzip (b ∷ bs)) compress_failed
  if ltb max_chunk_size_bytes (length compressed)
      then if leb (length ms) 1 then failed too_large else split ms
      else built (
          record {
            metrics = ms;
            included_ids = ids;
            jsonl_data = b ∷ bs;
            compressed_data = compressed;
            size = length compressed;
          }
          ∷ [])

unfoldable pub slice_chunks :
    Wire → (List Metric → Built (List Chunk)) → List Metric → Built (List Chunk)
unfolding pack
slice_chunks w split ms = do
  (jsonl, ids) ← or_failed (build_vm_jsonl w ms) marshal_failed
  pack w split ms ids jsonl

unfoldable pub all_slices :
    Wire → (List Metric → Built (List Chunk)) → List (List Metric) → Built (List Chunk)
unfolding slice_chunks
all_slices w split [] = built []
all_slices w split (s ∷ ss) = do
  chunks ← slice_chunks w split s
  rest ← all_slices w split ss
  built (chunks ++ rest)

-- The recursion halves the chunk size, so the chunk size itself is enough fuel.
unfoldable pub chunks_from : Wire → Sorter metric_time_le → ℕ → List Metric → ℕ → Built (List Chunk)
unfolding all_slices slices half_size
chunks_from w by_time zero ms n = failed out_of_fuel
chunks_from w by_time (suc fuel) ms n =
    let sorted = by_time.sort ms in
    all_slices w (λ sub. chunks_from w by_time fuel sub (half_size n))
      (slices (length sorted) n sorted)

-- A chunk size that is not positive is replaced by 50.
unfoldable pub positive_size : ℤ → ℕ
positive_size (pos zero) = 50
positive_size (pos (suc n)) = suc n
positive_size (negsuc n) = 50

unfoldable pub build_chunks : Wire → Sorter metric_time_le → List Metric → ℤ → Built (List Chunk)
unfolding chunks_from positive_size
build_chunks w by_time ms chunk_size =
    chunks_from w by_time (positive_size chunk_size) ms (positive_size chunk_size)
