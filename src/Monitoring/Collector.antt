-- ===== src/Monitoring/Collector.antt =====
-- The collector of meta-metrics of internal/monitoring/metrics.go: its state, its recording methods and
-- CollectMetrics. The int64 counters only grow, by numbers that are not negative, and wrap around.
use tidewatch.Base.{
  ℕ, ◌+◌, ◌-◌, ◌%◌, ◌^◌, Bool, List, [], ◌∷◌, ◌++◌, Option, none, some, ltb, if◌then◌else◌, length,
  drop, Text, codes, Dict, lookup, insert,
}
use tidewatch.Base.Int.{ℤ, pos}
use tidewatch.Models.{Float64, Metric}
use tidewatch.Monitoring.Percentiles.{calculate_percentiles}

pub record MetricsCollector : Type 0 where
  pub device_id : Text
  pub collector_metrics_collected : Dict ℕ
  pub collector_metrics_failed : Dict ℕ
  pub collector_durations : Dict (List Float64)
  pub uploader_metrics_uploaded : ℕ
  pub uploader_failures_total : ℕ
  pub uploader_durations : List Float64
  pub storage_database_size_bytes : ℤ
  pub storage_wal_size_bytes : ℤ
  pub storage_pending_upload : ℤ
  pub time_skew_ms : ℤ
  pub histogram_max_samples : ℕ

unfoldable pub new_metrics_collector : Text → MetricsCollector
new_metrics_collector device_id = record {
  device_id = device_id;
  collector_metrics_collected = [];
  collector_metrics_failed = [];
  collector_durations = [];
  uploader_metrics_uploaded = 0;
  uploader_failures_total = 0;
  uploader_durations = [];
  storage_database_size_bytes = pos 0;
  storage_wal_size_bytes = pos 0;
  storage_pending_upload = pos 0;
  time_skew_ms = pos 0;
  histogram_max_samples = 100;
}

-- a + b on int64, for a and b that are not negative; the result by its 64 bits
unfoldable pub add_wrapped : ℕ → ℕ → ℕ
add_wrapped a b = (a + b) % 2 ^ 64

abbrev pub or_no_count : Option ℕ → ℕ
or_no_count none = 0
or_no_count (some n) = n

abbrev pub or_no_samples : Option (List Float64) → List Float64
or_no_samples none = []
or_no_samples (some l) = l

-- Append a sample, and keep the last `bound`.
unfoldable pub record_duration : ℕ → List Float64 → Float64 → List Float64
record_duration bound durations d =
    let longer = durations ++ d ∷ [] in
    if ltb bound (length longer) then drop (length longer - bound) longer else longer

unfoldable pub record_collection_success : Text → ℕ → Float64 → MetricsCollector → MetricsCollector
unfolding add_wrapped record_duration
record_collection_success name n seconds m = record m {
  collector_metrics_collected =
      insert name (add_wrapped (or_no_count (lookup name m.collector_metrics_collected)) n)
        m.collector_metrics_collected;
  collector_durations =
      insert name
        (record_duration m.histogram_max_samples (or_no_samples (lookup name m.collector_durations))
          seconds)
        m.collector_durations;
}

unfoldable pub record_collection_failure : Text → MetricsCollector → MetricsCollector
unfolding add_wrapped
record_collection_failure name m = record m {
  collector_metrics_failed =
      insert name (add_wrapped (or_no_count (lookup name m.collector_metrics_failed)) 1)
        m.collector_metrics_failed;
}

unfoldable pub record_upload_success : ℕ → Float64 → MetricsCollector → MetricsCollector
unfolding add_wrapped record_duration
record_upload_success n seconds m = record m {
  uploader_metrics_uploaded = add_wrapped m.uploader_metrics_uploaded n;
  uploader_durations = record_duration m.histogram_max_samples m.uploader_durations seconds;
}

unfoldable pub record_upload_failure : MetricsCollector → MetricsCollector
unfolding add_wrapped
record_upload_failure m = record m {
  uploader_failures_total = add_wrapped m.uploader_failures_total 1;
}

unfoldable pub update_storage_metrics : ℤ → ℤ → ℤ → MetricsCollector → MetricsCollector
update_storage_metrics db_size wal_size pending m = record m {
  storage_database_size_bytes = db_size;
  storage_wal_size_bytes = wal_size;
  storage_pending_upload = pending;
}

unfoldable pub update_time_skew : ℤ → MetricsCollector → MetricsCollector
update_time_skew skew m = record m { time_skew_ms = skew }

-- What CollectMetrics takes from elsewhere: the time, > on float64, and float64(x) for an int64, also
-- for one given by its 64 bits.
pub record Reading : Type 0 where
  pub now_ms : ℤ
  pub gt : Float64 → Float64 → Bool
  pub of_bits : ℕ → Float64
  pub of_int : ℤ → Float64

abbrev gauge : Reading → MetricsCollector → Text → Dict Text → Float64 → Metric
gauge e m name tags value = record {
  timestamp_ms = e.now_ms;
  name = name;
  value = value;
  value_text = [];
  value_type = 0;
  device_id = m.device_id;
  tags = tags;
}

abbrev collector_tag : Text → Dict Text
collector_tag name = (codes "collector", name) ∷ []

-- One metric for each entry of a map of counts.
unfoldable pub count_metrics : Reading → MetricsCollector → Text → Dict ℕ → List Metric
count_metrics e m name [] = []
count_metrics e m name ((collector, n) ∷ rest) =
    gauge e m name (collector_tag collector) (e.of_bits n) ∷ count_metrics e m name rest

-- The three percentiles of a histogram that is not empty.
unfoldable pub histogram_metrics :
    Reading → MetricsCollector → Text → Dict Text → List Float64 → List Metric
histogram_metrics e m name tags [] = []
histogram_metrics e m name tags (d ∷ ds) =
    let (p50, p95, p99) = calculate_percentiles e.gt (d ∷ ds) in
    gauge e m (name ++ codes "_p50") tags p50
    ∷ gauge e m (name ++ codes "_p95") tags p95
    ∷ gauge e m (name ++ codes "_p99") tags p99
    ∷ []

unfoldable pub duration_metrics : Reading → MetricsCollector → Dict (List Float64) → List Metric
unfolding histogram_metrics
duration_metrics e m [] = []
duration_metrics e m ((collector, ds) ∷ rest) =
    histogram_metrics e m (codes "collector.collection_duration_seconds") (collector_tag collector)
      ds
    ++ duration_metrics e m rest

unfoldable pub collect_metrics : Reading → MetricsCollector → List Metric
unfolding count_metrics duration_metrics histogram_metrics
collect_metrics e m =
    count_metrics e m (codes "collector.metrics_collected_total") m.collector_metrics_collected
    ++ count_metrics e m (codes "collector.metrics_failed_total") m.collector_metrics_failed
    ++ duration_metrics e m m.collector_durations
    ++ (gauge e m (codes "uploader.metrics_uploaded_total") []
          (e.of_bits m.uploader_metrics_uploaded)
        ∷ gauge e m (codes "uploader.upload_failures_total") []
            (e.of_bits m.uploader_failures_total)
        ∷ histogram_metrics e m (codes "uploader.upload_duration_seconds") [] m.uploader_durations)
    ++ gauge e m (codes "storage.database_size_bytes") [] (e.of_int m.storage_database_size_bytes)
      ∷ gauge e m (codes "storage.wal_size_bytes") [] (e.of_int m.storage_wal_size_bytes)
      ∷ gauge e m (codes "storage.metrics_pending_upload") [] (e.of_int m.storage_pending_upload)
      ∷ gauge e m (codes "time.skew_ms") [] (e.of_int m.time_skew_ms)
      ∷ []
