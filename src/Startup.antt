-- ===== src/Startup.antt =====
-- main, run without -version, and initializeCollectors of cmd/tidewatch/main.go, as the list of what
-- main does. The loops that it starts are the turns of Pipeline.
pub mod Guarded
pub mod Exit
pub mod Registered
pub mod Tickers
use tidewatch.Base.{
  ℕ, ◌*◌, Bool, true, false, Option, none, some, List, [], ◌∷◌, ◌++◌, map, Text, Dict, codes,
  text_eq, insert, if◌then◌else◌,
}
use tidewatch.Base.Int.{ℤ, pos, negsuc, ltb_ℤ}
use tidewatch.Uploader.Errors.{second}
use tidewatch.Health.Checker.{Thresholds, thresholds_from_upload_interval}
use tidewatch.Config.Types.{MetricConfig, RemoteConfig, Config, Checked, good, bad}
use tidewatch.Config.Durations.{
  wal_checkpoint_interval, wal_checkpoint_size_bytes, upload_interval, get_batch_size,
  interval_duration, enabled_metrics,
}
use tidewatch.Config.Validate.{is_empty, validate}
use tidewatch.Config.Uploads.{HttpUploaderConfig, uploader_config}
use tidewatch.Watchdog.{Pinger, new_pinger, is_running_under_systemd}
use tidewatch.LockFile.{get_lock_path}
use tidewatch.Pipeline.Background.{normalize_storage_path}

pub data CollectorKind : Type 0 where
  system : CollectorKind
  cpu : CollectorKind
  memory : CollectorKind
  disk : CollectorKind
  network : CollectorKind
  mock_srt : CollectorKind

-- The switch over the names.
unfoldable pub collector_of : Text → Option CollectorKind
collector_of name =
    if text_eq name (codes "cpu.temperature")
    then some system
    else if text_eq name (codes "cpu.usage")
    then some cpu
    else if text_eq name (codes "memory.usage")
    then some memory
    else if text_eq name (codes "disk.io")
    then some disk
    else if text_eq name (codes "network.traffic")
    then some network
    else if text_eq name (codes "srt.packet_loss")
    then some mock_srt
    else none

abbrev pub registered :
    Text → Option ℤ → Option CollectorKind → Dict (CollectorKind × ℤ) → Dict (CollectorKind × ℤ)
registered name none kind m = m
registered name (some d) none m = m
registered name (some d) (some kind) m = insert name (kind, d) m

unfoldable pub register_all :
    (Text → Option ℤ) → List MetricConfig → Dict (CollectorKind × ℤ) → Dict (CollectorKind × ℤ)
unfolding collector_of
register_all parse [] m = m
register_all parse (c ∷ cs) m =
    register_all parse cs (registered c.name (interval_duration parse c) (collector_of c.name) m)

unfoldable pub initialize_collectors : (Text → Option ℤ) → Config → Dict (CollectorKind × ℤ)
unfolding register_all
initialize_collectors parse c = register_all parse (enabled_metrics c) []

-- A goroutine that main waits for.
pub data Service : Type 0 where
  health_server : (address : Text) → Service
  collection_loop : (name : Text) (kind : CollectorKind) (interval : ℤ) → Service
  upload_loop : (interval batch_size : ℤ) → Service
  storage_monitoring : Service
  meta_metrics_loop : (interval : ℕ) → Service
  clock_skew_loop : (url : Text) (interval threshold_ms : ℤ) → Service

pub data Action : Type 0 where
  takes_lock : (path : Text) → Action
  starts_watchdog : (interval : ℕ) → Action
  opens_store : (path : Text) → Action
  starts_wal_routine : (interval size : ℤ) → Action
  makes_health_checker : Thresholds → Action
  makes_uploader : HttpUploaderConfig → Action
  starts : Service → Action
  notifies_ready : Action
  receives_signal : Action
  notifies_stopping : Action
  cancels : Action
  waits : Action
  closes_uploader : Action
  cancels_wal_routine : Action
  cancels_wal_context : Action
  closes_store : Action
  releases_lock : Action
  exits : (code : ℕ) → Action

-- What main meets: the configuration file, the lock, systemd, and the database.
pub record Machine : Type 0 where
  pub parse : Text → Option ℤ
  pub loaded : Checked Config
  pub abs : Text → Option Text
  pub lock_is_free : Bool
  pub watchdog_usec : Option ℕ
  pub notify_socket : Text
  pub invocation_id : Text
  pub store_opens : Bool

abbrev pub or_else : Text → Text → Text
or_else s otherwise = if is_empty s then otherwise else s

-- The warning threshold replaces the default one where it is positive.
unfoldable pub health_thresholds : Config → ℤ → Thresholds
health_thresholds c interval =
    let t = thresholds_from_upload_interval interval in
    if ltb_ℤ (pos 0) c.monitoring.clock_skew_warn_threshold_ms
    then record t { clock_skew_threshold_ms = c.monitoring.clock_skew_warn_threshold_ms }
    else t

abbrev pub positive_or_five_minutes : Option ℤ → ℤ
positive_or_five_minutes none = pos (300 * second)
positive_or_five_minutes (some d) = if ltb_ℤ (pos 0) d then d else pos (300 * second)

unfoldable pub clock_services : Machine → Config → List Action
clock_services m c =
    let url = c.monitoring.clock_skew_url in
    let written = c.monitoring.clock_skew_check_interval in
    let ms = c.monitoring.clock_skew_warn_threshold_ms in
    if is_empty url
    then []
    else starts (
        clock_skew_loop url
          (positive_or_five_minutes (if is_empty written then none else m.parse written))
          (if ltb_ℤ (pos 0) ms then ms else pos 2000))
      ∷ []

abbrev pub collection : Text × (CollectorKind × ℤ) → Action
collection e = starts (collection_loop e.0 e.1.0 e.1.1)

abbrev pub only_if : Bool → Action → List Action
only_if true a = a ∷ []
only_if false a = []

-- What the deferred calls do, the last one first.
unfoldable pub deferred : Config → List Action
deferred c =
    only_if c.remote.enabled closes_uploader
    ++ (cancels_wal_routine
        ∷ cancels_wal_context
        ∷ closes_store
        ∷ cancels
        ∷ releases_lock
        ∷ exits 0
        ∷ [])

unfoldable pub until_shutdown : Machine → Config → List Action
unfolding clock_services deferred is_running_under_systemd
until_shutdown m c =
    let under_systemd = is_running_under_systemd m.notify_socket m.invocation_id in
    starts storage_monitoring
    ∷ starts (meta_metrics_loop (60 * second))
    ∷ (clock_services m c
        ++ (only_if under_systemd notifies_ready
            ++ (receives_signal
                ∷ (only_if under_systemd notifies_stopping ++ (cancels ∷ waits ∷ deferred c)))))

-- os.Exit runs no deferred call.
abbrev pub or_exit {ℓ} : {A : Type ℓ} → Checked A → (A → List Action) → List Action
or_exit (bad e) next = exits 1 ∷ []
or_exit (good a) next = next a

unfoldable pub with_upload_loop : Machine → Config → List Action
unfolding until_shutdown
with_upload_loop m c =
    if c.remote.enabled
    then (or_exit (upload_interval m.parse c.remote)
        λ interval. starts (upload_loop interval (get_batch_size c.remote)) ∷ until_shutdown m c)
    else until_shutdown m c

unfoldable pub with_services : Machine → Config → List Action
unfolding initialize_collectors with_upload_loop
with_services m c =
    starts (health_server (or_else c.monitoring.health_address (codes ":9100")))
    ∷ (map collection (initialize_collectors m.parse c) ++ with_upload_loop m c)

unfoldable pub with_uploader : Machine → Config → List Action
unfolding with_services
with_uploader m c =
    if c.remote.enabled
    then (or_exit (uploader_config m.parse c.remote) λ u. makes_uploader u ∷ with_services m c)
    else with_services m c

unfoldable pub with_store : Machine → Config → List Action
unfolding health_thresholds with_uploader
with_store m c = or_exit (wal_checkpoint_interval m.parse c.storage) λ wal.
    starts_wal_routine wal (wal_checkpoint_size_bytes c.storage)
    ∷ or_exit (upload_interval m.parse c.remote)
        λ interval. makes_health_checker (health_thresholds c interval) ∷ with_uploader m c

abbrev pub watchdog_pings : Pinger → List Action
watchdog_pings p = only_if p.enabled (starts_watchdog p.interval)

unfoldable pub with_lock : Machine → Config → List Action
unfolding with_store new_pinger
with_lock m c =
    watchdog_pings (new_pinger m.watchdog_usec)
    ++ (if m.store_opens then opens_store c.storage.path ∷ with_store m c else exits 1 ∷ [])

unfoldable pub main : Machine → List Action
unfolding with_lock normalize_storage_path get_lock_path
main m = or_exit m.loaded λ c. or_exit (validate m.parse c) λ u.
    if m.lock_is_free
    then takes_lock (get_lock_path (normalize_storage_path m.abs c.storage.path)) ∷ with_lock m c
    else exits 1 ∷ []
