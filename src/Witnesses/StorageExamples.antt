-- ===== src/Witnesses/StorageExamples.antt =====
-- The theorems on the store at concrete inputs.
use tidewatch.Base.{◌≡◌, refl, false, List, [], ◌∷◌, Text, codes, lookup, text_eq, arith}
use mathlib.Core.List.Perm
use tidewatch.Base.Int.{pos}
use tidewatch.Models.{Metric}
use tidewatch.Storage.Table.{empty_db}
use tidewatch.Storage.Insert.{store_batch, generate_dedup_key}
use tidewatch.Storage.Insert.Batch.{Outcome, store_batch-Outcome}
use tidewatch.Storage.Insert.Canonical.{generate_dedup_key-order}
use tidewatch.Storage.Invariant.{IsWellFormed}
use tidewatch.Storage.History.{stores, stores_batch, marks, deletes, run, run-IsWellFormed}
use tidewatch.Storage.Select.{QueryOptions}
use tidewatch.Witnesses.Fixtures.{
  codec, session, no_faults, second_fails, temperature, usage, state, queue, calm,
}

abbrev readings : List Metric
readings = temperature ∷ usage ∷ state ∷ temperature ∷ []

store_batch-Outcome_example :
    Outcome codec session readings queue
      (store_batch codec second_fails session readings queue).1
      (store_batch codec second_fails session readings queue).0
store_batch-Outcome_example = store_batch-Outcome codec second_fails session readings queue

run-IsWellFormed_example : IsWellFormed (
    run codec empty_db (
      stores_batch no_faults session readings
      ∷ marks calm.mark (pos 1 ∷ [])
      ∷ deletes (record { exec = false; affected = false }) (pos 1800)
      ∷ stores second_fails session usage
      ∷ []))
run-IsWellFormed_example = run-IsWellFormed codec (
    stores_batch no_faults session readings
    ∷ marks calm.mark (pos 1 ∷ [])
    ∷ deletes (record { exec = false; affected = false }) (pos 1800)
    ∷ stores second_fails session usage
    ∷ [])

abbrev tagged : Text → Text → Metric
tagged a b = record temperature { tags = (a, codes "x") ∷ (b, codes "x") ∷ [] }

same_lookups :
    (k : Text)
    → lookup k (tagged (codes "a") (codes "b")).tags
      ≡ lookup k (tagged (codes "b") (codes "a")).tags
unfolding lookup text_eq
same_lookups k = ground arith

generate_dedup_key-order_example :
    generate_dedup_key codec (tagged (codes "a") (codes "b"))
    ≡ generate_dedup_key codec (tagged (codes "b") (codes "a"))
generate_dedup_key-order_example =
    generate_dedup_key-order codec (tagged (codes "a") (codes "b")) (tagged (codes "b") (codes "a"))
      refl refl refl refl (Perm.swap (codes "b") (codes "a") []) same_lookups

abbrev recent : QueryOptions
recent = record {
  start_ms = pos 1200;
  end_ms = pos 0;
  device_id = codes "device-1";
  metric_name = [];
  limit = pos 1;
}
