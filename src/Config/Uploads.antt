-- ===== src/Config/Uploads.antt =====
-- The uploader's settings: main of cmd/tidewatch/main.go (the retry block) and NewHTTPUploaderWithConfig
-- of internal/uploader/uploader.go.
use tidewatch.Base.{ℕ, ◌*◌, Bool, true, false, not, ◌||◌, Option, none, some, if◌then◌else◌, Text}
use tidewatch.Base.Int.{ℤ, pos, ltb_ℤ, leb_ℤ, eqb_ℤ, ◌-ℤ◌}
use tidewatch.Models.{Float64}
use tidewatch.Uploader.Errors.{second}
use tidewatch.Uploader.Retry.{RetrySettings}
use tidewatch.Config.Floats.{float_lt, float_eq, float_zero, float_two}
use tidewatch.Config.Types.{RetryConfig, RemoteConfig, Checked, good, bad}
use tidewatch.Config.Durations.{initial_backoff, max_backoff, get_chunk_size}
use tidewatch.Config.Validate.{is_empty}

-- The fields of HTTPUploaderConfig that main sets for retrying and chunking.
pub record HttpUploaderConfig : Type 0 where
  pub max_retries : Option ℤ
  pub retry_delay : ℤ
  pub max_backoff : ℤ
  pub backoff_multiplier : Float64
  pub jitter_percent : Option ℤ
  pub chunk_size : ℤ

abbrev is_some {ℓ} : {A : Type ℓ} → Option A → Bool
is_some none = false
is_some (some a) = true

abbrev pub set_or_true : Option Bool → Bool
set_or_true none = true
set_or_true (some b) = b

unfoldable pub retry_configured : RetryConfig → Bool
retry_configured r =
    is_some r.enabled
    || ltb_ℤ (pos 0) r.max_attempts
    || not (is_empty r.initial_backoff_str)
    || not (is_empty r.max_backoff_str)
    || float_lt float_zero r.backoff_multiplier
    || is_some r.jitter_percent

-- max_attempts counts the first attempt too.
unfoldable pub retries_of : ℤ → ℤ
retries_of attempts =
    let attempts = if eqb_ℤ attempts (pos 0) then pos 3 else attempts in
    let retries = attempts -ℤ pos 1 in if ltb_ℤ retries (pos 0) then pos 0 else retries

abbrev pub jitter_or_default : Option ℤ → Option ℤ
jitter_or_default none = some (pos 20)
jitter_or_default (some j) = some j

-- `bad` is the exit of the process.
unfoldable pub enabled_config : ℤ → RetryConfig → Checked ℤ → Checked ℤ → Checked HttpUploaderConfig
unfolding retries_of
enabled_config chunk r (bad e) max = bad e
enabled_config chunk r (good delay) (bad e) = bad e
enabled_config chunk r (good delay) (good max) = good (record {
  max_retries = some (retries_of r.max_attempts);
  retry_delay = delay;
  max_backoff = max;
  backoff_multiplier = r.backoff_multiplier;
  jitter_percent = jitter_or_default r.jitter_percent;
  chunk_size = chunk;
})

unfoldable pub uploader_config : (Text → Option ℤ) → RemoteConfig → Checked HttpUploaderConfig
unfolding retry_configured enabled_config
uploader_config parse r =
    let chunk = get_chunk_size r in
    if retry_configured r.retry
    then (if set_or_true r.retry.enabled
        then enabled_config chunk r.retry (initial_backoff parse r.retry)
            (max_backoff parse r.retry)
        else good (record {
          max_retries = some (pos 0);
          retry_delay = pos second;
          max_backoff = pos 0;
          backoff_multiplier = float_zero;
          jitter_percent = some (pos 0);
          chunk_size = chunk;
        }))
    else good (record {
      max_retries = none;
      retry_delay = pos 0;
      max_backoff = pos 0;
      backoff_multiplier = float_zero;
      jitter_percent = none;
      chunk_size = chunk;
    })

abbrev pub value_or : ℕ → Option ℤ → ℤ
value_or default none = pos default
value_or default (some n) = n

-- NewHTTPUploaderWithConfig: the settings, and the chunk size.
unfoldable pub new_settings : HttpUploaderConfig → RetrySettings × ℤ
new_settings c = (
  record {
    max_retries = value_or 3 c.max_retries;
    retry_delay = if leb_ℤ c.retry_delay (pos 0) then pos second else c.retry_delay;
    max_backoff = if leb_ℤ c.max_backoff (pos 0) then pos (30 * second) else c.max_backoff;
    backoff_multiplier =
        if float_eq c.backoff_multiplier float_zero then float_two else c.backoff_multiplier;
    jitter_percent = value_or 20 c.jitter_percent;
  },
  if eqb_ℤ c.chunk_size (pos 0) then pos 50 else c.chunk_size,
)
