-- ===== src/Uploader/Chunks/Total.antt =====
-- BuildChunks ends: halving reaches chunks of one metric before the fuel is gone.
use tidewatch.Base.{
  ℕ, zero, suc, ◌≤◌, ◌<◌, ◌≡◌, ◌≢◌, refl, Bool, true, false, Option, none, some, List, [], ◌∷◌,
  arith, if◌then◌else◌, ltb, leb, length, Text, All, Sorter,
}
use tidewatch.Base.Int.{ℤ}
use tidewatch.Models.{Metric}
use tidewatch.Uploader.Jsonl.{Wire, build_vm_jsonl}
use tidewatch.Uploader.Chunks.{
  Chunk, Built, BuildError, built, failed, or_failed, marshal_failed, compress_failed, too_large,
  out_of_fuel, max_chunk_size_bytes, metric_time_le, slices, half_size, pack, slice_chunks,
  all_slices, chunks_from, positive_size, build_chunks, ◌>>=◌,
}
use tidewatch.Uploader.Chunks.Complete.{Covers, OnBuilt}
use tidewatch.Uploader.Chunks.Build.{chunks_from-Covers, slices_few, half_size-pos}

-- Whatever else goes wrong, the fuel does not run out.
abbrev Ends {ℓ} : {A : Type ℓ} → Built A → Type 0
Ends (built a) = Unit
Ends (failed e) = e ≢ out_of_fuel

Ends-bind {ℓ κ} :
    {A : Type ℓ} {B : Type κ} (m : Built A) (f : A → Built B)
    → Ends m
    → ((a : A) → Ends (f a))
    → Ends (m >>= f)
Ends-bind (built a) f h k = k a
Ends-bind (failed e) f h k = h

Ends-or_failed {ℓ} :
    {A : Type ℓ} (o : Option A) (e : BuildError) → e ≢ out_of_fuel → Ends (or_failed o e)
Ends-or_failed none e h = h
Ends-or_failed (some a) e h = tt

-- Only a slice of two or more metrics is split.
module _ (w : Wire) (split : List Metric → Built (List Chunk)) where
  slice_chunks-Ends :
      (ms : List Metric) → (2 ≤ length ms → Ends (split ms)) → Ends (slice_chunks w split ms)
  unfolding slice_chunks pack
  slice_chunks-Ends ms h =
      Ends-bind (or_failed (build_vm_jsonl w ms) marshal_failed) _ (Ends-or_failed _ _ (λ e. cc))
        λ r. packed r.1 r.0
    where
      sized : (b : Bool) → leb (length ms) 1 ≡ b → Ends (if b then failed too_large else split ms)
      sized true e = λ q. cc
      sized false e = h (ground arith)

      fits :
          (b : Bool) (c : Chunk)
          → Ends (
              if b
              then if leb (length ms) 1 then failed too_large else split ms
              else built (c ∷ []))
      fits true c = sized (leb (length ms) 1) refl
      fits false c = tt

      packed : (ids : List ℤ) (jsonl : Text) → Ends (pack w split ms ids jsonl)
      packed ids [] = tt
      packed ids (b ∷ bs) =
          Ends-bind (or_failed (w.gzip (b ∷ bs)) compress_failed) _ (Ends-or_failed _ _ (λ e. cc))
            λ compressed. fits (ltb max_chunk_size_bytes (length compressed)) _

  all_slices-Ends :
      (n : ℕ) (ss : List (List Metric))
      → (2 ≤ n → (sub : List Metric) → Ends (split sub))
      → All (λ s. length s ≤ n) ss
      → Ends (all_slices w split ss)
  unfolding all_slices
  all_slices-Ends n [] h few = tt
  all_slices-Ends n (s ∷ ss) h (few, fews) =
      Ends-bind (slice_chunks w split s) _ (slice_chunks-Ends s (λ two. h (omega arith) s))
        λ chunks. Ends-bind (all_slices w split ss) _ (all_slices-Ends n ss h fews) λ rest. tt

half_size-lt : (n fuel : ℕ) → 2 ≤ n → n ≤ suc fuel → half_size n ≤ fuel
unfolding half_size
half_size-lt n fuel two h = ground arith

chunks_from-Ends :
    (w : Wire) (by_time : Sorter metric_time_le) (fuel : ℕ) (ms : List Metric) (n : ℕ)
    → 0 < n
    → n ≤ fuel
    → Ends (chunks_from w by_time fuel ms n)
unfolding chunks_from
chunks_from-Ends w by_time zero ms n p h = absurd (omega arith)
chunks_from-Ends w by_time (suc fuel) ms n p h =
    all_slices-Ends w (λ sub. chunks_from w by_time fuel sub (half_size n)) n
      (slices (length (by_time.sort ms)) n (by_time.sort ms))
      (λ two sub.
        chunks_from-Ends w by_time fuel sub (half_size n) (half_size-pos n)
          (half_size-lt n fuel two h))
      (slices_few (length (by_time.sort ms)) n (by_time.sort ms))

positive_size-pos : (z : ℤ) → 0 < positive_size z
unfolding positive_size
positive_size-pos z = ground arith

OnBuilt-eq {ℓ κ} :
    {A : Type ℓ} (P : A → Type κ) (r : Built A) {a : A} → OnBuilt P r → r ≡ built a → P a
OnBuilt-eq P r h e = rw e at h

-- If BuildChunks returns chunks, they hold the numeric metrics of the input, each as often as the
-- input does, and report exactly the positive storage ids of those; and each chunk is the gzip of its
-- metrics' lines, is not empty, holds at most the chunk size of metrics (50 where the argument is not
-- positive), and is at most 256 KB.
pub build_chunks-Covers :
    (w : Wire) (by_time : Sorter metric_time_le) (ms : List Metric) (chunk_size : ℤ)
    (chunks : List Chunk)
    → build_chunks w by_time ms chunk_size ≡ built chunks
    → Covers w (positive_size chunk_size) ms chunks
unfolding build_chunks
build_chunks-Covers w by_time ms chunk_size chunks e =
    OnBuilt-eq _ _
      (chunks_from-Covers w by_time (positive_size chunk_size) ms (positive_size chunk_size)
        (positive_size-pos chunk_size))
      e

Ends-ne {ℓ} : {A : Type ℓ} (r : Built A) → Ends r → r ≢ failed out_of_fuel
Ends-ne (built a) h e = cc
Ends-ne (failed d) h e = h (cc)

-- The recursion of BuildChunks ends within its fuel, for every input and chunk size, however large
-- the compressed slices are.
pub build_chunks_ends :
    (w : Wire) (by_time : Sorter metric_time_le) (ms : List Metric) (chunk_size : ℤ)
    → build_chunks w by_time ms chunk_size ≢ failed out_of_fuel
unfolding build_chunks
build_chunks_ends w by_time ms chunk_size = Ends-ne _ (
    chunks_from-Ends w by_time (positive_size chunk_size) ms (positive_size chunk_size)
      (positive_size-pos chunk_size) (omega arith))
