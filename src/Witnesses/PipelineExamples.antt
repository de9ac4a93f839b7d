-- ===== src/Witnesses/PipelineExamples.antt =====
-- The theorems on the rounds and loops at concrete inputs.
use tidewatch.Storage.Invariant.{IsWellFormed}
use tidewatch.Base.{
  ◌-◌, ◌*◌, ◌≡◌, refl, true, false, none, some, List, [], ◌∷◌, codes, length, arith, keep, lookup,
  text_eq, take, insertion_sorter,
}
use tidewatch.Base.Int.{ℤ, pos}
use tidewatch.Models.{Tags}
use tidewatch.Storage.Table.{has_key}
use tidewatch.Storage.Codec.{Result, ok}
use tidewatch.Storage.Select.{stored_tags, storage_id_tag, query_unuploaded}
use tidewatch.Health.Checker.{new_checker, default_thresholds}
use tidewatch.Health.Overall.{get_report, health_code}
use tidewatch.Pipeline.Rounds.{RoundError, upload_metrics, upload_error}
use tidewatch.Pipeline.Split.{pending}
use tidewatch.Pipeline.Marks.{IsUploadable}
use tidewatch.Pipeline.Outcome.{Outcome, upload_metrics-Outcome}
use tidewatch.Pipeline.Drain.{IsQuietTx, drain, drain-length}
use tidewatch.Pipeline.Loops.{LoopState, Tick, upload_tick}
use tidewatch.Pipeline.Reports.{IfPresent, upload_tick-failed}
use tidewatch.Pipeline.Turns.{Turn, collects, uploads, measures, take_turns}
use tidewatch.Pipeline.Kept.{Kept, take_turns-Kept}
use tidewatch.Witnesses.Fixtures.{
  second_fails, session, usage, temperature, codec, setup, calm, refusing, queue, recovering,
}
use tidewatch.Uploader.Upload.{upload_and_get_ids, chunk_failed}
use tidewatch.Uploader.Chunks.{build_chunks}
use tidewatch.Uploader.Jsonl.{build_vm_jsonl}
use tidewatch.Uploader.Retry.{upload_chunk_with_retry}
use tidewatch.Uploader.Errors.{classify, is_retryable, refused, non_retryable}

nothing_reserved :
    (tags : Tags) → ◌≡◌ {A = Result Tags} (ok []) (ok tags) → lookup storage_id_tag tags ≡ none
unfolding lookup
nothing_reserved tags h = let e : ◌≡◌ {A = Tags} [] tags = cc in rw (← e) refl

queue_formed : IsWellFormed queue
unfolding has_key text_eq
queue_formed = record {
  ids = (omega arith, (omega arith, (omega arith, omega arith)));
  unique = (refl, (refl, (refl, tt)));
  flags = (omega arith, (omega arith, (omega arith, tt)));
}

pub queue-IsUploadable : IsUploadable codec queue
unfolding has_key text_eq stored_tags
queue-IsUploadable = record {
  formed = queue_formed;
  in_range = omega arith;
  unreserved = (nothing_reserved, (nothing_reserved, (nothing_reserved, tt)));
}

upload_metrics-Outcome_example : Outcome setup calm queue (upload_metrics setup calm queue)
upload_metrics-Outcome_example = upload_metrics-Outcome setup calm queue queue-IsUploadable

works : IsQuietTx calm.mark
works = record { begins = refl; exec = refl; commits = refl }

succeeds : (upload_metrics setup calm queue).error ≡ none
unfolding upload_metrics query_unuploaded take insertion_sorter keep upload_and_get_ids build_chunks
    build_vm_jsonl upload_chunk_with_retry recovering classify is_retryable
succeeds = refl

drain-length_example :
    length (pending (drain setup (calm ∷ []) queue)) ≡ length (pending queue) - 1 * 1
drain-length_example =
    drain-length setup 0 (calm ∷ []) queue refl queue-IsUploadable (works, succeeds, tt)

abbrev fails : RoundError
fails = upload_error (chunk_failed 0 (refused (non_retryable 401)))

refused_round : (upload_metrics setup refusing queue).error ≡ some fails
unfolding upload_metrics query_unuploaded take insertion_sorter keep upload_and_get_ids build_chunks
    build_vm_jsonl upload_chunk_with_retry recovering classify is_retryable
refused_round = refl

abbrev pub started : LoopState
started = record {
  system = record {
    db = queue;
    health = some (new_checker (pos 0) default_thresholds);
    meta = none;
  };
  last_upload_time = pos 0;
  last_upload_err = none;
}

abbrev pub tick : Tick
tick = record {
  weather = refusing;
  count_fails = false;
  finished = pos 40000000000;
  now = pos 40000000001;
  seconds = 4607182418800017408;
  error_text = λ e. codes "401";
  format_time = λ t. codes "1970-01-01T00:00:00Z";
}

upload_tick-failed_example :
    ((upload_tick setup tick started).system.db ≡ queue)
    × ((upload_tick setup tick started).last_upload_time ≡ pos 0)
    × ((upload_tick setup tick started).last_upload_err ≡ some (codes "401"))
    × IfPresent
        (λ c. (later : ℤ) → health_code (get_report later c) ≡ 503)
        (upload_tick setup tick started).system.health
upload_tick-failed_example =
    upload_tick-failed setup tick started fails queue-IsUploadable refused_round

-- An unreachable disk, an upload that is refused, one that is taken, and a size check.
abbrev turns : List Turn
turns =
    measures
      (record { db_size = none; wal_size = some (pos 4096); count_fails = true; now = pos 1 })
    ∷ uploads tick
    ∷ uploads (record tick { weather = calm })
    ∷ collects session (record {
      collector = codes "cpu";
      answer = some (usage ∷ temperature ∷ []);
      collect_error = [];
      faults = second_fails;
      error_text = λ e. codes "disk full";
      now = pos 2;
      seconds = 4607182418800017408;
    })
    ∷ []

take_turns-Kept_example :
    Kept queue.rows (take_turns setup started turns).system.db.rows
    × IsWellFormed (take_turns setup started turns).system.db
take_turns-Kept_example = take_turns-Kept setup started turns queue_formed
