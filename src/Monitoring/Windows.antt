-- ===== src/Monitoring/Windows.antt =====
-- What the collector of meta-metrics holds after a history of recordings.
use tidewatch.Base.{
  ℕ, ◌+◌, ◌%◌, ◌^◌, ◌≡◌, refl, List, [], ◌∷◌, ◌++◌, if◌then◌else◌, drop, Text, text_eq, lookup,
}
use tidewatch.Base.Int.{ℤ}
use tidewatch.Models.{Float64}
use tidewatch.Monitoring.Collector.{
  MetricsCollector, new_metrics_collector, or_no_count, or_no_samples, record_collection_success,
  record_collection_failure, record_upload_success, record_upload_failure, update_storage_metrics,
  update_time_skew,
}
use tidewatch.Monitoring.Samples.{
  last_100, record_duration-last_100, add_wrapped_mod, nothing_more, counted_more, sampled_more,
}

-- A call of a recording method.
pub data Event : Type 0 where
  collected : Text → ℕ → Float64 → Event
  collect_failed : Text → Event
  uploaded : ℕ → Float64 → Event
  upload_failed : Event
  storage_seen : ℤ → ℤ → ℤ → Event
  skew_seen : ℤ → Event

pub apply : Event → MetricsCollector → MetricsCollector
apply (collected name n d) m = record_collection_success name n d m
apply (collect_failed name) m = record_collection_failure name m
apply (uploaded n d) m = record_upload_success n d m
apply upload_failed m = record_upload_failure m
apply (storage_seen d w p) m = update_storage_metrics d w p m
apply (skew_seen s) m = update_time_skew s m

-- The state after a history that is written latest call first.
pub after : Text → List Event → MetricsCollector
after device [] = new_metrics_collector device
after device (e ∷ es) = apply e (after device es)

-- the samples of the collections of one collector, in time
pub samples : Text → List Event → List Float64
samples name [] = []
samples name (collected other n d ∷ es) =
    if text_eq other name then samples name es ++ d ∷ [] else samples name es
samples name (e ∷ es) = samples name es

pub upload_samples : List Event → List Float64
upload_samples [] = []
upload_samples (uploaded n d ∷ es) = upload_samples es ++ d ∷ []
upload_samples (e ∷ es) = upload_samples es

-- the metrics collected by one collector, its failures, the metrics uploaded, the failed uploads
abbrev pub collected_by : Text → Event → ℕ
collected_by name (collected other n d) = if text_eq other name then n else 0
collected_by name e = 0

abbrev pub failures_of : Text → Event → ℕ
failures_of name (collect_failed other) = if text_eq other name then 1 else 0
failures_of name e = 0

abbrev pub uploads_of : Event → ℕ
uploads_of (uploaded n d) = n
uploads_of e = 0

abbrev pub upload_failures_of : Event → ℕ
upload_failures_of upload_failed = 1
upload_failures_of e = 0

pub total : (Event → ℕ) → List Event → ℕ
total f [] = 0
total f (e ∷ es) = f e + total f es

-- What the collector shows after a history.
pub record Shows (es : List Event) (m : MetricsCollector) : Type 0 where
  pub bound : m.histogram_max_samples ≡ 100
  pub durations :
      (name : Text) → or_no_samples (lookup name m.collector_durations) ≡ last_100 (samples name es)
  pub collected_total :
      (name : Text)
      → or_no_count (lookup name m.collector_metrics_collected)
        ≡ total (collected_by name) es % 2 ^ 64
  pub failed_total :
      (name : Text)
      → or_no_count (lookup name m.collector_metrics_failed) ≡ total (failures_of name) es % 2 ^ 64
  pub upload_durations : m.uploader_durations ≡ last_100 (upload_samples es)
  pub uploaded_total : m.uploader_metrics_uploaded ≡ total uploads_of es % 2 ^ 64
  pub upload_failed_total : m.uploader_failures_total ≡ total upload_failures_of es % 2 ^ 64

apply-Shows :
    (e : Event) (es : List Event) (m : MetricsCollector) → Shows es m → Shows (e ∷ es) (apply e m)
unfolding apply record_collection_success record_collection_failure record_upload_success
    record_upload_failure update_storage_metrics update_time_skew samples upload_samples total
apply-Shows (collected name n d) es m k = record {
  bound = k.bound;
  durations = λ other.
      rw k.bound
        (sampled_more m.collector_durations (λ key. samples key es) name other d k.durations);
  collected_total = λ other.
      counted_more m.collector_metrics_collected (λ key. total (collected_by key) es) name other n
        k.collected_total;
  failed_total = λ other. nothing_more _ _ (k.failed_total other);
  upload_durations = k.upload_durations;
  uploaded_total = nothing_more _ _ k.uploaded_total;
  upload_failed_total = nothing_more _ _ k.upload_failed_total;
}
apply-Shows (collect_failed name) es m k = record {
  bound = k.bound;
  durations = k.durations;
  collected_total = λ other. nothing_more _ _ (k.collected_total other);
  failed_total = λ other.
      counted_more m.collector_metrics_failed (λ key. total (failures_of key) es) name other 1
        k.failed_total;
  upload_durations = k.upload_durations;
  uploaded_total = nothing_more _ _ k.uploaded_total;
  upload_failed_total = nothing_more _ _ k.upload_failed_total;
}
apply-Shows (uploaded n d) es m k = record {
  bound = k.bound;
  durations = k.durations;
  collected_total = λ other. nothing_more _ _ (k.collected_total other);
  failed_total = λ other. nothing_more _ _ (k.failed_total other);
  upload_durations =
      rw (k.bound, k.upload_durations) (record_duration-last_100 (upload_samples es) d);
  uploaded_total = add_wrapped_mod _ n _ k.uploaded_total;
  upload_failed_total = nothing_more _ _ k.upload_failed_total;
}
apply-Shows upload_failed es m k = record {
  bound = k.bound;
  durations = k.durations;
  collected_total = λ other. nothing_more _ _ (k.collected_total other);
  failed_total = λ other. nothing_more _ _ (k.failed_total other);
  upload_durations = k.upload_durations;
  uploaded_total = nothing_more _ _ k.uploaded_total;
  upload_failed_total = add_wrapped_mod _ 1 _ k.upload_failed_total;
}
apply-Shows (storage_seen a b c) es m k = record {
  bound = k.bound;
  durations = k.durations;
  collected_total = λ other. nothing_more _ _ (k.collected_total other);
  failed_total = λ other. nothing_more _ _ (k.failed_total other);
  upload_durations = k.upload_durations;
  uploaded_total = nothing_more _ _ k.uploaded_total;
  upload_failed_total = nothing_more _ _ k.upload_failed_total;
}
apply-Shows (skew_seen s) es m k = record {
  bound = k.bound;
  durations = k.durations;
  collected_total = λ other. nothing_more _ _ (k.collected_total other);
  failed_total = λ other. nothing_more _ _ (k.failed_total other);
  upload_durations = k.upload_durations;
  uploaded_total = nothing_more _ _ k.uploaded_total;
  upload_failed_total = nothing_more _ _ k.upload_failed_total;
}

-- After any calls of the recording methods on a new collector: each window of durations is that of the
-- last 100 samples recorded for it, in their order, and each counter is the sum of what was counted for
-- it, modulo 2 ^ 64.
pub after-Shows : (device : Text) (es : List Event) → Shows es (after device es)
unfolding after
after-Shows device [] =
    unfold new_metrics_collector lookup drop samples upload_samples total in
    record {
      bound = refl;
      durations = λ name. refl;
      collected_total = λ name. refl;
      failed_total = λ name. refl;
      upload_durations = refl;
      uploaded_total = refl;
      upload_failed_total = refl;
    }
after-Shows device (e ∷ es) = apply-Shows e es (after device es) (after-Shows device es)
