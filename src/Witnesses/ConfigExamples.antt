-- ===== src/Witnesses/ConfigExamples.antt =====
-- The theorems on the configuration at a concrete one.
use tidewatch.Base.{◌≡◌, ◌↔◌, refl, true, Option, none, some, [], ◌∷◌, Text, codes}
use tidewatch.Base.Int.{ℤ, pos}
use tidewatch.Config.Types.{Config, good}
use tidewatch.Config.Validate.{validate}
use tidewatch.Config.Durations.{wal_checkpoint_interval, upload_interval, initial_backoff}
use tidewatch.Config.Floats.{float_eq, float_lt}
use tidewatch.Config.Sound.{IsUsable}
use tidewatch.Config.Complete.{validate_iff}
use tidewatch.Config.Uploads.{HttpUploaderConfig, uploader_config, new_settings}
use tidewatch.Config.Settings.{IsSafe, uploader_config-IsSafe}

-- All texts but the empty one are 15 seconds.
parse : Text → Option ℤ
parse [] = none
parse (c ∷ s) = some (pos 15000000000)

abbrev config : Config
config = record {
  device_id = codes "device-1";
  storage = record {
    path = codes "/var/lib/tidewatch.db";
    wal_checkpoint_interval_str = [];
    wal_checkpoint_size_mb = pos 0;
  };
  remote = record {
    url = codes "https://example.com/api/v1/import";
    enabled = true;
    upload_interval_str = codes "15s";
    auth_token = [];
    auth_token_file = [];
    batch_size = pos 0;
    chunk_size = pos 0;
    retry = record {
      enabled = none;
      max_attempts = pos 5;
      initial_backoff_str = codes "15s";
      max_backoff_str = [];
      backoff_multiplier = 4609434218613702656;
      jitter_percent = some (pos 0);
    };
  };
  monitoring = record {
    clock_skew_url = [];
    clock_skew_check_interval = [];
    clock_skew_warn_threshold_ms = pos 0;
    health_address = codes ":9100";
  };
  logging = record { level = codes "info"; format = codes "json" };
  metrics = record { name = codes "cpu"; interval = codes "15s"; enabled = true } ∷ [];
}

validate_iff_example : (validate parse config ≡ good tt) ↔ IsUsable parse config
validate_iff_example = validate_iff parse config

accepted : validate parse config ≡ good tt
unfolding validate parse wal_checkpoint_interval upload_interval initial_backoff float_eq float_lt
accepted = refl

uploader_config-IsSafe_example :
    (u : HttpUploaderConfig) × (uploader_config parse config.remote ≡ good u)
    × IsSafe (new_settings u).0 (new_settings u).1
uploader_config-IsSafe_example = uploader_config-IsSafe parse config accepted
