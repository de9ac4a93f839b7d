-- ===== src/Uploader/Jsonl.antt =====
-- VMMetric and BuildVMJSONL of internal/uploader/victoriametrics.go. encoding/json is a parameter.
use tidewatch.Base.{
  Bool, true, false, Option, none, some, List, [], ◌∷◌, ◌++◌, map, if◌then◌else◌, ◌==◌, Text, codes,
  text_eq, text_le, lookup, insert, insertion_sort, keep, not,
}
use tidewatch.Base.Int.{ℤ, pos, ltb_ℤ}
use tidewatch.Base.Decimal.{scan_dec}
use tidewatch.Models.{Metric, Tags, Float64, value_type_string}
use tidewatch.Storage.Select.{storage_id_tag}
use tidewatch.Uploader.Naming.{sanitize_metric_name}

pub record VmMetric : Type 0 where
  pub metric : Tags
  pub values : List Float64
  pub timestamps : List ℤ

-- What the uploader takes from encoding/json and compress/gzip; either may fail.
pub record Wire : Type 0 where
  pub marshal : VmMetric → Option Text
  pub gzip : Text → Option Text

abbrev pub is_string : Metric → Bool
is_string m = m.value_type == value_type_string

abbrev or_zero : Option ℤ → ℤ
or_zero none = pos 0
or_zero (some n) = n

abbrev scan_tag : Option Text → ℤ
scan_tag none = pos 0
scan_tag (some s) = or_zero (scan_dec s)

-- The storage id on a metric's tags, 0 where there is none or it does not scan.
unfoldable pub storage_id : Metric → ℤ
storage_id m = scan_tag (lookup storage_id_tag m.tags)

-- labels[k] = m.Tags[k] for the keys in order, without the storage id
unfoldable pub add_labels : Tags → List Text → Tags → Tags
add_labels tags [] labels = labels
add_labels tags (k ∷ ks) labels =
    add_labels tags ks (insert k (elim (lookup k tags) [ none ↦ [] | some v ↦ v ]) labels)

unfoldable pub label_keys : Tags → List Text
label_keys tags =
    insertion_sort text_le (keep (λ k. not (text_eq k storage_id_tag)) (map (λ e. e.0) tags))

abbrev device_labels : Text → Tags → Tags
device_labels [] labels = labels
device_labels (c ∷ s) labels = insert (codes "device_id") (c ∷ s) labels

unfoldable pub labels : Metric → Tags
unfolding add_labels label_keys
labels m =
    add_labels m.tags (label_keys m.tags)
      (device_labels m.device_id (insert (codes "__name__") (sanitize_metric_name m.name) []))

unfoldable pub vm_metric : Metric → VmMetric
unfolding labels
vm_metric m = record { metric = labels m; values = m.value ∷ []; timestamps = m.timestamp_ms ∷ [] }

-- `if storageID > 0 { includedIDs = append(includedIDs, storageID) }`
unfoldable pub id_list : Metric → List ℤ
unfolding storage_id
id_list m = if ltb_ℤ (pos 0) (storage_id m) then storage_id m ∷ [] else []

-- The loop over the metrics, with the buffer and the ids so far; `none` is a marshalling error.
unfoldable pub jsonl_loop : Wire → List Metric → Text → List ℤ → Option (Text × List ℤ)
unfolding id_list vm_metric
jsonl_loop w [] buf ids = some (buf, ids)
jsonl_loop w (m ∷ ms) buf ids = elim (is_string m) [
  | true ↦ jsonl_loop w ms buf ids
  | false ↦ elim (w.marshal (vm_metric m)) [
    | none ↦ none
    | some line ↦ jsonl_loop w ms (buf ++ line ++ b'\n' ∷ []) (ids ++ id_list m)
  ]
]

unfoldable pub build_vm_jsonl : Wire → List Metric → Option (Text × List ℤ)
unfolding jsonl_loop
build_vm_jsonl w ms = jsonl_loop w ms [] []
