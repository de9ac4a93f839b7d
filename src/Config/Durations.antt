-- ===== src/Config/Durations.antt =====
-- The getters of internal/config/config.go. `parse` is time.ParseDuration, in nanoseconds.
use tidewatch.Base.{ℕ, zero, suc, ◌*◌, Option, none, some, List, [], ◌∷◌, if◌then◌else◌, Text, keep}
use tidewatch.Base.Int.{ℤ, pos, negsuc, leb_ℤ}
use tidewatch.Uploader.Errors.{wrap_int64, second}
use tidewatch.Config.Types.{
  StorageConfig, RetryConfig, RemoteConfig, MetricConfig, Config, Setting, Checked, good, bad,
  invalid_duration, must_be_positive, wal_checkpoint_interval_setting, initial_backoff_setting,
  max_backoff_setting, upload_interval_setting,
}

-- A duration that was written out.
unfoldable pub positive_duration : Setting → Option ℤ → Checked ℤ
positive_duration s none = bad (invalid_duration s)
positive_duration s (some d) = if leb_ℤ d (pos 0) then bad (must_be_positive s) else good d

unfoldable pub duration_or : (Text → Option ℤ) → Setting → ℕ → Text → Checked ℤ
unfolding positive_duration
duration_or parse s default [] = good (pos default)
duration_or parse s default (c ∷ t) = positive_duration s (parse (c ∷ t))

unfoldable pub wal_checkpoint_interval : (Text → Option ℤ) → StorageConfig → Checked ℤ
unfolding duration_or
wal_checkpoint_interval parse s =
    duration_or parse wal_checkpoint_interval_setting (3600 * second) s.wal_checkpoint_interval_str

unfoldable pub initial_backoff : (Text → Option ℤ) → RetryConfig → Checked ℤ
unfolding duration_or
initial_backoff parse r = duration_or parse initial_backoff_setting second r.initial_backoff_str

unfoldable pub max_backoff : (Text → Option ℤ) → RetryConfig → Checked ℤ
unfolding duration_or
max_backoff parse r = duration_or parse max_backoff_setting (30 * second) r.max_backoff_str

unfoldable pub upload_interval : (Text → Option ℤ) → RemoteConfig → Checked ℤ
unfolding duration_or
upload_interval parse r =
    duration_or parse upload_interval_setting (30 * second) r.upload_interval_str

-- The product wraps around.
unfoldable pub size_bytes : ℤ → ℤ
size_bytes (pos zero) = pos (64 * 1024 * 1024)
size_bytes (pos (suc n)) = wrap_int64 (suc n * 1024 * 1024)
size_bytes (negsuc n) = pos (64 * 1024 * 1024)

unfoldable pub wal_checkpoint_size_bytes : StorageConfig → ℤ
unfolding size_bytes
wal_checkpoint_size_bytes s = size_bytes s.wal_checkpoint_size_mb

abbrev pub positive_or : ℕ → ℤ → ℤ
positive_or default (pos zero) = pos default
positive_or default (pos (suc n)) = pos (suc n)
positive_or default (negsuc n) = pos default

unfoldable pub get_batch_size : RemoteConfig → ℤ
get_batch_size r = positive_or 2500 r.batch_size

unfoldable pub get_chunk_size : RemoteConfig → ℤ
get_chunk_size r = positive_or 50 r.chunk_size

unfoldable pub interval_duration : (Text → Option ℤ) → MetricConfig → Option ℤ
interval_duration parse m = parse m.interval

unfoldable pub enabled_metrics : Config → List MetricConfig
enabled_metrics c = keep (λ (m : MetricConfig). m.enabled) c.metrics
