-- ===== src/Uploader/Chunks/Build.antt =====
-- The proof that BuildChunks covers its input, along its loop and its recursion.
use tidewatch.Base.{
  ℕ, zero, suc, ◌≤◌, ◌<◌, ◌≡◌, refl, ap, ◌∙◌, Bool, true, false, some, inl, inr, List, [], ◌∷◌,
  ◌++◌, arith, if◌then◌else◌, ltb, leb, Bool-cases, length, length-take, length-drop, take, drop,
  take-append-drop, keep, Text, gather, All, Sorter,
}
use tidewatch.Base.Int.{ℤ}
use tidewatch.Models.{Metric}
use tidewatch.Uploader.Jsonl.{Wire, build_vm_jsonl}
use tidewatch.Uploader.Chunks.{
  Chunk, Built, built, failed, or_failed, marshal_failed, compress_failed, too_large,
  max_chunk_size_bytes, metric_time_le, slices, half_size, pack, slice_chunks, all_slices,
  chunks_from,
}
use tidewatch.Uploader.Chunks.Lines.{build_vm_jsonl_lem}
use tidewatch.Uploader.Chunks.Complete.{
  Covers, OnBuilt, OnBuilt-bind, or_failed-eq-built, Covers-none, Covers-one, Covers-append,
  Covers-perm, Covers-mono,
}

-- the slices of a list

gather-slices :
    (rounds n : ℕ) (ms : List Metric)
    → length ms ≤ rounds
    → 0 < n
    → gather (λ s. s) (slices rounds n ms) ≡ ms
unfolding slices gather
gather-slices zero n [] h p = refl
gather-slices zero n (m ∷ ms) h p = absurd (omega arith)
gather-slices (suc rounds) n [] h p = refl
gather-slices (suc rounds) n (m ∷ ms) h p =
    ap (◌++◌ (take n (m ∷ ms)))
      (gather-slices rounds n (drop n (m ∷ ms)) (omega (arith, length-drop n (m ∷ ms))) p)
    ∙ take-append-drop n (m ∷ ms)

pub slices_few : (rounds n : ℕ) (ms : List Metric) → All (λ s. length s ≤ n) (slices rounds n ms)
unfolding slices
slices_few zero n ms = tt
slices_few (suc rounds) n [] = tt
slices_few (suc rounds) n (m ∷ ms) =
    (omega (arith, length-take n (m ∷ ms)), slices_few rounds n (drop n (m ∷ ms)))

-- one slice

-- What is asked of the function that splits a large slice.
abbrev Splits : Wire → ℕ → (List Metric → Built (List Chunk)) → Type 0
Splits w n split = (ms : List Metric) → OnBuilt (Covers w n ms) (split ms)

module _ (w : Wire) (n : ℕ) (split : List Metric → Built (List Chunk))
    (splits : Splits w n split) where
  pack-Covers :
      (ms : List Metric) (ids : List ℤ) (jsonl : Text)
      → length ms ≤ n
      → build_vm_jsonl w ms ≡ some (jsonl, ids)
      → OnBuilt (Covers w n ms) (pack w split ms ids jsonl)
  unfolding pack
  pack-Covers ms ids [] few e = Covers-none w n ms ((build_vm_jsonl_lem w ms [] ids e).1 refl)
  pack-Covers ms ids (b ∷ bs) few e =
      OnBuilt-bind (Covers w n ms) (or_failed (w.gzip (b ∷ bs)) compress_failed) _ λ compressed p.
        let q = or_failed-eq-built (w.gzip (b ∷ bs)) compress_failed p in
        elim (Bool-cases (ltb max_chunk_size_bytes (length compressed))) [
          | inl large ↦ rw large (large_slice (leb (length ms) 1))
          | inr fits ↦ rw fits (
              Covers-one w n (chunk compressed) (record {
                lines = e;
                packed = q;
                sized = refl;
                not_empty = omega arith;
                few = few;
                small = ground arith;
              }))
        ]
    where
      chunk : Text → Chunk
      chunk compressed = record {
        metrics = ms;
        included_ids = ids;
        jsonl_data = b ∷ bs;
        compressed_data = compressed;
        size = length compressed;
      }

      large_slice :
          (single : Bool) → OnBuilt (Covers w n ms) (if single then failed too_large else split ms)
      large_slice true = tt
      large_slice false = splits ms

  slice_chunks-Covers :
      (ms : List Metric) → length ms ≤ n → OnBuilt (Covers w n ms) (slice_chunks w split ms)
  unfolding slice_chunks
  slice_chunks-Covers ms few =
      OnBuilt-bind (Covers w n ms) (or_failed (build_vm_jsonl w ms) marshal_failed) _ λ r p.
        pack-Covers ms r.1 r.0 few (or_failed-eq-built (build_vm_jsonl w ms) marshal_failed p)

  all_slices-Covers :
      (ss : List (List Metric))
      → All (λ s. length s ≤ n) ss
      → OnBuilt (Covers w n (gather (λ s. s) ss)) (all_slices w split ss)
  unfolding all_slices gather
  all_slices-Covers [] few = Covers-none w n [] (unfold keep in refl)
  all_slices-Covers (s ∷ ss) (few, fews) = OnBuilt-bind goal (slice_chunks w split s) _ λ chunks p.
      OnBuilt-bind goal (all_slices w split ss) _ λ rest q.
        Covers-append w n s (gather (λ t. t) ss) chunks rest (rw p at (slice_chunks-Covers s few))
          (rw q at (all_slices-Covers ss fews))
    where
      goal : List Chunk → Type 0
      goal = Covers w n (s ++ gather (λ t. t) ss)

half_size-le : (n : ℕ) → 0 < n → half_size n ≤ n
unfolding half_size
half_size-le n h = ground arith

pub half_size-pos : (n : ℕ) → 0 < half_size n
unfolding half_size
half_size-pos n = ground arith

OnBuilt-imp {ℓ κ μ} :
    {A : Type ℓ} {P : A → Type κ} {Q : A → Type μ} (r : Built A)
    → ((a : A) → P a → Q a)
    → OnBuilt P r
    → OnBuilt Q r
OnBuilt-imp (built a) imp h = imp a h
OnBuilt-imp (failed e) imp h = tt

pub chunks_from-Covers :
    (w : Wire) (by_time : Sorter metric_time_le) (fuel : ℕ) (ms : List Metric) (n : ℕ)
    → 0 < n
    → OnBuilt (Covers w n ms) (chunks_from w by_time fuel ms n)
unfolding chunks_from
chunks_from-Covers w by_time zero ms n h = tt
chunks_from-Covers w by_time (suc fuel) ms n h =
    OnBuilt-imp (all_slices w split ss)
      (λ cs k.
        Covers-perm w n (by_time.sort ms) ms cs (by_time.sort-perm ms)
          (rw (gather-slices (length (by_time.sort ms)) n (by_time.sort ms) (omega arith) h) at k))
      (all_slices-Covers w n split
        (λ sub.
          OnBuilt-imp (split sub)
            (λ cs k. Covers-mono w (half_size n) n sub cs (half_size-le n h) k)
            (chunks_from-Covers w by_time fuel sub (half_size n) (half_size-pos n)))
        ss (slices_few (length (by_time.sort ms)) n (by_time.sort ms)))
  where
    split : List Metric → Built (List Chunk)
    split sub = chunks_from w by_time fuel sub (half_size n)

    ss : List (List Metric)
    ss = slices (length (by_time.sort ms)) n (by_time.sort ms)
