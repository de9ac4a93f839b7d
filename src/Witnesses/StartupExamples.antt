-- ===== src/Witnesses/StartupExamples.antt =====
-- The theorems on the start of the process at a concrete machine.
use tidewatch.Base.{◌≡◌, ◌&&◌, Option, none, some, true, [], ◌∷◌, All, Text, codes, if◌then◌else◌}
use tidewatch.Base.Int.{ℤ, pos}
use tidewatch.Config.Types.{Config, good}
use tidewatch.Startup.{Machine, main}
use tidewatch.Startup.Guarded.{fresh, Allowed}
use tidewatch.Startup.Exit.{exit_code, is_accepted, main-exit_code}
use tidewatch.Startup.Tickers.{Ticks, main-IsSafe}

-- All texts but the empty one are 15 seconds.
parse_start : Text → Option ℤ
parse_start [] = none
parse_start (c ∷ s) = some (pos 15000000000)

abbrev start_config : Config
start_config = record {
  device_id = codes "device-1";
  storage = record {
    path = codes "file:/var/lib/tidewatch.db";
    wal_checkpoint_interval_str = [];
    wal_checkpoint_size_mb = pos 0;
  };
  remote = record {
    url = codes "https://example.com/api/v1/import";
    enabled = true;
    upload_interval_str = codes "15s";
    auth_token = [];
    auth_token_file = [];
    batch_size = pos 0;
    chunk_size = pos 0;
    retry = record {
      enabled = none;
      max_attempts = pos 0;
      initial_backoff_str = [];
      max_backoff_str = [];
      backoff_multiplier = 0;
      jitter_percent = none;
    };
  };
  monitoring = record {
    clock_skew_url = codes "https://example.com/time";
    clock_skew_check_interval = [];
    clock_skew_warn_threshold_ms = pos 0;
    health_address = [];
  };
  logging = record { level = codes "info"; format = codes "json" };
  metrics = record { name = codes "cpu.usage"; interval = codes "15s"; enabled = true } ∷ [];
}

abbrev machine : Machine
machine = record {
  parse = parse_start;
  loaded = good start_config;
  abs = λ path. none;
  lock_is_free = true;
  watchdog_usec = some 30000000;
  notify_socket = codes "/run/systemd/notify";
  invocation_id = [];
  store_opens = true;
}

main-exit_code_example :
    exit_code (main machine) ≡ some (if is_accepted machine && true && true then 0 else 1)
main-exit_code_example = main-exit_code machine

main-IsSafe_example : Allowed fresh (main machine) × All Ticks (main machine)
main-IsSafe_example = main-IsSafe machine
