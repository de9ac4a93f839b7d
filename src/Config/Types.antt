-- ===== src/Config/Types.antt =====
-- The structs of internal/config/config.go and the errors of its functions.
use tidewatch.Base.{Bool, Option, List, Text}
use tidewatch.Base.Int.{ℤ}
use tidewatch.Models.{Float64}

pub record StorageConfig : Type 0 where
  pub path : Text
  pub wal_checkpoint_interval_str : Text
  pub wal_checkpoint_size_mb : ℤ

pub record RetryConfig : Type 0 where
  pub enabled : Option Bool
  pub max_attempts : ℤ
  pub initial_backoff_str : Text
  pub max_backoff_str : Text
  pub backoff_multiplier : Float64
  pub jitter_percent : Option ℤ

pub record RemoteConfig : Type 0 where
  pub url : Text
  pub enabled : Bool
  pub upload_interval_str : Text
  pub auth_token : Text
  pub auth_token_file : Text
  pub batch_size : ℤ
  pub chunk_size : ℤ
  pub retry : RetryConfig

pub record MonitoringConfig : Type 0 where
  pub clock_skew_url : Text
  pub clock_skew_check_interval : Text
  pub clock_skew_warn_threshold_ms : ℤ
  pub health_address : Text

pub record LoggingConfig : Type 0 where
  pub level : Text
  pub format : Text

pub record MetricConfig : Type 0 where
  pub name : Text
  pub interval : Text
  pub enabled : Bool

-- `device` is the id of the DeviceConfig.
pub record Config : Type 0 where
  pub device_id : Text
  pub storage : StorageConfig
  pub remote : RemoteConfig
  pub monitoring : MonitoringConfig
  pub logging : LoggingConfig
  pub metrics : List MetricConfig

-- The setting that a duration is read for.
pub data Setting : Type 0 where
  wal_checkpoint_interval_setting : Setting
  initial_backoff_setting : Setting
  max_backoff_setting : Setting
  upload_interval_setting : Setting

pub data ConfigError : Type 0 where
  invalid_duration : Setting → ConfigError
  must_be_positive : Setting → ConfigError
  device_id_required : ConfigError
  path_required : ConfigError
  url_required : ConfigError
  multiplier_too_small : ConfigError
  jitter_out_of_range : ConfigError
  invalid_interval : Text → ConfigError
  interval_must_be_positive : Text → ConfigError
  read_failed : ConfigError
  parse_failed : ConfigError
  both_tokens : ConfigError
  token_read_failed : ConfigError
  token_file_empty : ConfigError
  invalid_config : ConfigError → ConfigError

pub data Checked {ℓ} (A : Type ℓ) : Type ℓ where
  good : A → Checked A
  bad : ConfigError → Checked A
