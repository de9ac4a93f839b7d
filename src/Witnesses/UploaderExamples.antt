-- ===== src/Witnesses/UploaderExamples.antt =====
-- The theorems on the uploader at concrete inputs.
use tidewatch.Base.{
  ◌≡◌, ◌≢◌, ◌↔◌, refl, none, some, List, [], ◌∷◌, length, insertion_sorter, insertion_sort,
  insert_sorted, take, drop,
}
use tidewatch.Base.Int.{pos}
use tidewatch.Models.{Metric, with_tag, new_metric, new_string_metric}
use tidewatch.Uploader.Jsonl.{build_vm_jsonl, jsonl_loop}
use tidewatch.Uploader.Errors.{UploadError, classify, is_retryable, exceeded}
use tidewatch.Uploader.Retry.{upload_chunk_with_retry, rounds}
use tidewatch.Uploader.Retry.Attempts.{
  Delivers, FailsAll, upload_chunk_with_retry_iff, upload_chunk_with_retry_exhausted,
}
use tidewatch.Uploader.Chunks.{
  Chunk, Built, built, failed, out_of_fuel, build_chunks, chunks_from, all_slices, slice_chunks,
  pack, slices, half_size, positive_size,
}
use tidewatch.Uploader.Chunks.Complete.{Covers}
use tidewatch.Uploader.Chunks.Total.{build_chunks-Covers, build_chunks_ends}
use tidewatch.Uploader.Upload.{upload_and_get_ids}
use tidewatch.Uploader.Upload.Delivery.{Delivered, upload_and_get_ids-Delivered}
use tidewatch.Witnesses.Fixtures.{
  uploader, remote, by_metric_time, temperature, usage, state, recovering, unreachable,
}

abbrev readings : List Metric
readings = temperature ∷ usage ∷ state ∷ []

upload_and_get_ids-Delivered_example :
    Delivered uploader readings
      (upload_and_get_ids uploader (λ chunk attempt. recovering attempt) readings)
upload_and_get_ids-Delivered_example =
    upload_and_get_ids-Delivered uploader (λ chunk attempt. recovering attempt) readings

build_chunks_ends_example :
    build_chunks uploader.wire by_metric_time readings (pos 2) ≢ failed out_of_fuel
build_chunks_ends_example = build_chunks_ends uploader.wire by_metric_time readings (pos 2)

abbrev chunks_of : Built (List Chunk) → List Chunk
chunks_of (built chunks) = chunks
chunks_of (failed e) = []

-- the chunks that the readings are sent in
abbrev sent : List Chunk
sent = chunks_of (build_chunks uploader.wire by_metric_time readings (pos 2))

readings_built : build_chunks uploader.wire by_metric_time readings (pos 2) ≡ built sent
unfolding build_chunks chunks_from all_slices slice_chunks pack slices half_size positive_size
    build_vm_jsonl jsonl_loop insertion_sorter insertion_sort insert_sorted take drop with_tag
    new_metric new_string_metric
readings_built = refl

build_chunks-Covers_example : Covers uploader.wire (positive_size (pos 2)) readings sent
build_chunks-Covers_example =
    build_chunks-Covers uploader.wire by_metric_time readings (pos 2) sent readings_built

upload_chunk_with_retry_iff_example :
    (((upload_chunk_with_retry remote recovering).outcome ≡ none)
      × ((upload_chunk_with_retry remote recovering).requests ≡ 2))
    ↔ Delivers remote recovering (rounds (pos 2)) 0 2
upload_chunk_with_retry_iff_example = upload_chunk_with_retry_iff remote recovering 2

down : FailsAll remote (λ attempt. unreachable) 3 0
down =
    unfold classify is_retryable in
    (((refl, (_, refl, refl)), refl), (((refl, (_, refl, refl)), refl), (refl, (_, refl, refl))))

upload_chunk_with_retry_exhausted_example :
    ((e : UploadError) × ((upload_chunk_with_retry remote (λ attempt. unreachable)).outcome
        ≡ some (exceeded e)))
    × ((upload_chunk_with_retry remote (λ attempt. unreachable)).requests ≡ 3)
    × (length (upload_chunk_with_retry remote (λ attempt. unreachable)).waits ≡ 2)
upload_chunk_with_retry_exhausted_example =
    upload_chunk_with_retry_exhausted remote (λ attempt. unreachable) 2 refl down
