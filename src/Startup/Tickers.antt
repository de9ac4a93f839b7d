-- ===== src/Startup/Tickers.antt =====
-- The tickers of the loops that main starts: time.NewTicker panics on a period that is not positive.
use tidewatch.Base.{
  ℕ, zero, suc, ◌≡◌, refl, inl, inr, Option, none, some, Bool, true, false, List, [], ◌∷◌, ◌++◌,
  map, arith, Bool-cases, Dict, if◌then◌else◌, All, All-append,
}
use tidewatch.Base.Int.{ℤ, pos, ltb_ℤ}
use tidewatch.Config.Types.{Config, Checked, good, bad}
use tidewatch.Config.Durations.{wal_checkpoint_interval, upload_interval, enabled_metrics}
use tidewatch.Config.Validate.{is_empty, validate}
use tidewatch.Config.Uploads.{uploader_config}
use tidewatch.Config.Sound.{IsPositive, validate-IsUsable}
use tidewatch.Watchdog.{new_pinger, is_running_under_systemd}
use tidewatch.Startup.Registered.{Timed, enabled_metrics-Read, register_all-Timed}
use tidewatch.Startup.Guarded.{fresh, Allowed, main-Allowed}
use tidewatch.Startup.{
  CollectorKind, Action, starts_watchdog, watchdog_pings, starts_wal_routine, starts,
  collection_loop, upload_loop, meta_metrics_loop, clock_skew_loop, Machine, opens_store,
  positive_or_five_minutes, collection, only_if, or_exit, main, with_lock, with_store,
  with_uploader, with_services, with_upload_loop, until_shutdown, clock_services, deferred,
  initialize_collectors,
}

-- The period of the ticker that an action sets up.
pub period_of : Action → Option ℤ
period_of (starts_watchdog interval) = some (pos interval)
period_of (starts_wal_routine interval size) = some interval
period_of (starts (collection_loop name kind interval)) = some interval
period_of (starts (upload_loop interval batch_size)) = some interval
period_of (starts (meta_metrics_loop interval)) = some (pos interval)
period_of (starts (clock_skew_loop url interval threshold_ms)) = some interval
period_of action = none

pub Ticks : Action → Type 0
Ticks a = elim (period_of a) [ none ↦ Unit | some d ↦ ltb_ℤ (pos 0) d ≡ true ]

positive_or_five_minutes_lem : (o : Option ℤ) → ltb_ℤ (pos 0) (positive_or_five_minutes o) ≡ true
positive_or_five_minutes_lem none = ground arith
positive_or_five_minutes_lem (some d) = elim (Bool-cases (ltb_ℤ (pos 0) d)) [
  | inl e ↦ rw e e
  | inr e ↦ rw e (ground arith)
]

or_exit-Ticks :
    {A : Type 0} (r : Checked A) (rest : A → List Action)
    → ((a : A) → r ≡ good a → All Ticks (rest a))
    → All Ticks (or_exit r rest)
unfolding Ticks period_of
or_exit-Ticks (bad e) rest h = (tt, tt)
or_exit-Ticks (good a) rest h = h a refl

either-Ticks :
    (b : Bool) (xs ys : List Action)
    → All Ticks xs
    → All Ticks ys
    → All Ticks (if b then xs else ys)
either-Ticks true xs ys h k = h
either-Ticks false xs ys h k = k

only_if-Ticks :
    (b : Bool) (a : Action) (rest : List Action)
    → Ticks a
    → All Ticks rest
    → All Ticks (only_if b a ++ rest)
only_if-Ticks true a rest t h = (t, h)
only_if-Ticks false a rest t h = h

collection-Ticks :
    (rest : List Action) (m : Dict (CollectorKind × ℤ))
    → All Timed m
    → All Ticks rest
    → All Ticks (map collection m ++ rest)
unfolding Ticks period_of
collection-Ticks rest [] t h = h
collection-Ticks rest (e ∷ m) (t, ts) h = (t, collection-Ticks rest m ts h)

clock_services-Ticks : (m : Machine) (c : Config) → All Ticks (clock_services m c)
unfolding clock_services Ticks period_of
clock_services-Ticks m c =
    either-Ticks (is_empty c.monitoring.clock_skew_url) [] _ tt
      (search positive_or_five_minutes_lem, tt)

until_shutdown-Ticks : (m : Machine) (c : Config) → All Ticks (until_shutdown m c)
unfolding until_shutdown deferred Ticks period_of
until_shutdown-Ticks m c = (
  tt,
  (
    ground arith,
    All-append Ticks _ _ (clock_services-Ticks m c) (
        only_if-Ticks (is_running_under_systemd m.notify_socket m.invocation_id) _ _ tt (
          tt,
          only_if-Ticks (is_running_under_systemd m.notify_socket m.invocation_id) _ _ tt (
            tt,
            (tt, only_if-Ticks c.remote.enabled _ _ tt (tt, (tt, (tt, (tt, (tt, (tt, tt))))))),
          ),
        )),
  ),
)

watchdog_pings-Ticks :
    (usec : Option ℕ) (rest : List Action)
    → All Ticks rest
    → All Ticks (watchdog_pings (new_pinger usec) ++ rest)
unfolding new_pinger Ticks period_of
watchdog_pings-Ticks none rest h = h
watchdog_pings-Ticks (some zero) rest h = h
watchdog_pings-Ticks (some (suc n)) rest h = (ground arith, h)

module _ (m : Machine) (c : Config) (v : validate m.parse c ≡ good tt) where
  positive-Ticks : {d : ℤ} (r : Checked ℤ) → IsPositive r → r ≡ good d → ltb_ℤ (pos 0) d ≡ true
  positive-Ticks r (n, p) e = ground (arith, p, e)

  with_upload_loop-Ticks : All Ticks (with_upload_loop m c)
  unfolding with_upload_loop Ticks period_of
  with_upload_loop-Ticks =
      either-Ticks c.remote.enabled _ _
        (or_exit-Ticks (upload_interval m.parse c.remote) _ λ d e.
          (positive-Ticks _ (validate-IsUsable m.parse c v).interval e, until_shutdown-Ticks m c))
        (until_shutdown-Ticks m c)

  initialize_collectors-Timed : All Timed (initialize_collectors m.parse c)
  unfolding initialize_collectors enabled_metrics
  initialize_collectors-Timed =
      register_all-Timed m.parse _ []
        (enabled_metrics-Read m.parse c.metrics (validate-IsUsable m.parse c v).metrics) tt

  with_services-Ticks : All Ticks (with_services m c)
  unfolding with_services Ticks period_of
  with_services-Ticks = (
    tt,
    collection-Ticks _ (initialize_collectors m.parse c) initialize_collectors-Timed
        with_upload_loop-Ticks,
  )

  with_uploader-Ticks : All Ticks (with_uploader m c)
  unfolding with_uploader Ticks period_of
  with_uploader-Ticks =
      either-Ticks c.remote.enabled _ _
        (or_exit-Ticks (uploader_config m.parse c.remote) _ λ u e. (tt, with_services-Ticks))
        with_services-Ticks

  with_store-Ticks : All Ticks (with_store m c)
  unfolding with_store Ticks period_of
  with_store-Ticks = or_exit-Ticks (wal_checkpoint_interval m.parse c.storage) _ λ wal e. (
    positive-Ticks _ (validate-IsUsable m.parse c v).wal e,
    or_exit-Ticks (upload_interval m.parse c.remote) _ λ d e. (tt, with_uploader-Ticks),
  )

  with_lock-Ticks : All Ticks (with_lock m c)
  unfolding with_lock Ticks period_of
  with_lock-Ticks =
      let opening =
        either-Ticks m.store_opens (opens_store c.storage.path ∷ with_store m c) _
          (tt, with_store-Ticks) (tt, tt) in
      watchdog_pings-Ticks m.watchdog_usec _ opening

main-Ticks : (m : Machine) → All Ticks (main m)
unfolding main Ticks period_of
main-Ticks m = or_exit-Ticks m.loaded _ λ c e.
    or_exit-Ticks (validate m.parse c) _
      λ u v. either-Ticks m.lock_is_free _ _ (tt, with_lock-Ticks m c v) (tt, tt)

-- Whatever main meets: it opens the store only after it has taken the lock, starts every service with
-- the store open, closes the store only after it has told the services to stop and has waited for them,
-- gives the lock back after that, and exits with 0 only then; every other end is an exit with an error.
-- And every period that it hands to a ticker is positive: those of the watchdog, the collection loops,
-- the upload loop, the loop of the meta-metrics, the clock check and the WAL routine. So none of them
-- panics on its ticker, whatever the configuration file says.
pub main-IsSafe : (m : Machine) → Allowed fresh (main m) × All Ticks (main m)
main-IsSafe m = (main-Allowed m, main-Ticks m)
