-- ===== src/Startup/Guarded.antt =====
-- The order in which main takes and gives back the lock and the store.
use tidewatch.Base.{
  ◌≡◌, refl, inl, inr, Option, none, some, Bool, true, false, List, [], ◌∷◌, ◌++◌, map, Bool-cases,
  Dict, ℕ, arith, if◌then◌else◌,
}
use tidewatch.Base.Int.{ℤ}
use tidewatch.Config.Types.{Config, Checked, good, bad}
use tidewatch.Config.Durations.{wal_checkpoint_interval, upload_interval}
use tidewatch.Config.Validate.{is_empty, validate}
use tidewatch.Config.Uploads.{uploader_config}
use tidewatch.Watchdog.{Pinger, new_pinger, is_running_under_systemd}
use tidewatch.Startup.{
  CollectorKind, Action, takes_lock, starts_watchdog, opens_store, starts_wal_routine, Machine,
  makes_health_checker, makes_uploader, starts, notifies_ready, receives_signal, notifies_stopping,
  cancels, waits, closes_uploader, cancels_wal_routine, cancels_wal_context, closes_store,
  releases_lock, exits, collection, only_if, or_exit, main, with_lock, with_store, with_uploader,
  with_services, with_upload_loop, until_shutdown, clock_services, deferred, watchdog_pings,
  initialize_collectors,
}

-- How far the process is.
pub data Stage : Type 0 where
  fresh : Stage
  locked : Stage
  opened : Stage
  stopping : Stage
  finished : Stage
  closed : Stage
  released : Stage

-- Loops are started with the lock taken and the store open; the store is closed once they are told to
-- stop and have ended, and the lock is given back after that.
pub next : Stage → Action → Option Stage
next fresh (takes_lock path) = some locked
next locked (starts_watchdog interval) = some locked
next locked (opens_store path) = some opened
next opened (starts_wal_routine interval size) = some opened
next opened (makes_health_checker t) = some opened
next opened (makes_uploader u) = some opened
next opened (starts s) = some opened
next opened notifies_ready = some opened
next opened receives_signal = some opened
next opened notifies_stopping = some opened
next opened cancels = some stopping
next stopping waits = some finished
next finished closes_uploader = some finished
next finished cancels_wal_routine = some finished
next finished cancels_wal_context = some finished
next finished closes_store = some closed
next closed cancels = some closed
next closed releases_lock = some released
next stage action = none

unfoldable pub code_of : Action → Option ℕ
code_of (exits code) = some code
code_of action = none

-- The actions are allowed one after the other, the last one is an exit, and it reports success only
-- after the lock is given back.
pub Allowed : Stage → List Action → Type 0
Allowed stage [] = ⊥
Allowed stage (a ∷ rest) = elim (code_of a) [
  | some code ↦ (rest ≡ []) × (code ≡ 0 → stage ≡ released)
  | none ↦ elim (next stage a) [ none ↦ ⊥ | some stage' ↦ Allowed stage' rest ]
]

fails-Allowed : (stage : Stage) → Allowed stage (exits 1 ∷ [])
unfolding Allowed code_of
fails-Allowed stage = (refl, λ e. absurd (omega arith))

or_exit-Allowed :
    {A : Type 0} (stage : Stage) (r : Checked A) (rest : A → List Action)
    → ((a : A) → Allowed stage (rest a))
    → Allowed stage (or_exit r rest)
or_exit-Allowed stage (bad e) rest h = fails-Allowed stage
or_exit-Allowed stage (good a) rest h = h a

either-Allowed :
    (stage : Stage) (b : Bool) (xs ys : List Action)
    → Allowed stage xs
    → Allowed stage ys
    → Allowed stage (if b then xs else ys)
either-Allowed stage true xs ys h k = h
either-Allowed stage false xs ys h k = k

-- Actions that leave the stage of the open store.
module _ (rest : List Action) (h : Allowed opened rest) where
  collection-Allowed : (m : Dict (CollectorKind × ℤ)) → Allowed opened (map collection m ++ rest)
  unfolding Allowed next code_of
  collection-Allowed [] = h
  collection-Allowed (e ∷ m) = collection-Allowed m

  clock_services-Allowed : (x : Machine) (c : Config) → Allowed opened (clock_services x c ++ rest)
  unfolding Allowed next code_of clock_services
  clock_services-Allowed x c = elim (Bool-cases (is_empty c.monitoring.clock_skew_url)) [
    | inl e ↦ rw e h
    | inr e ↦ rw e h
  ]

  ready-Allowed : (b : Bool) → Allowed opened (only_if b notifies_ready ++ rest)
  unfolding Allowed next code_of
  ready-Allowed true = h
  ready-Allowed false = h

  stopping-Allowed : (b : Bool) → Allowed opened (only_if b notifies_stopping ++ rest)
  unfolding Allowed next code_of
  stopping-Allowed true = h
  stopping-Allowed false = h

deferred-Allowed : (c : Config) → Allowed finished (deferred c)
unfolding Allowed next code_of deferred
deferred-Allowed c = elim (Bool-cases c.remote.enabled) [
  | inl e ↦ rw e (refl, λ z. refl)
  | inr e ↦ rw e (refl, λ z. refl)
]

until_shutdown-Allowed : (m : Machine) (c : Config) → Allowed opened (until_shutdown m c)
unfolding until_shutdown Allowed next code_of
until_shutdown-Allowed m c =
    clock_services-Allowed _
      (ready-Allowed _
        (stopping-Allowed _ (deferred-Allowed c)
          (is_running_under_systemd m.notify_socket m.invocation_id))
        (is_running_under_systemd m.notify_socket m.invocation_id))
      m c

with_upload_loop-Allowed : (m : Machine) (c : Config) → Allowed opened (with_upload_loop m c)
unfolding with_upload_loop Allowed next code_of
with_upload_loop-Allowed m c =
    either-Allowed opened c.remote.enabled _ _
      (or_exit-Allowed opened (upload_interval m.parse c.remote) _
        λ interval. until_shutdown-Allowed m c)
      (until_shutdown-Allowed m c)

with_services-Allowed : (m : Machine) (c : Config) → Allowed opened (with_services m c)
unfolding with_services Allowed next code_of
with_services-Allowed m c =
    collection-Allowed (with_upload_loop m c) (with_upload_loop-Allowed m c)
      (initialize_collectors m.parse c)

with_uploader-Allowed : (m : Machine) (c : Config) → Allowed opened (with_uploader m c)
unfolding with_uploader Allowed next code_of
with_uploader-Allowed m c =
    either-Allowed opened c.remote.enabled _ _
      (or_exit-Allowed opened (uploader_config m.parse c.remote) _ λ u. with_services-Allowed m c)
      (with_services-Allowed m c)

with_store-Allowed : (m : Machine) (c : Config) → Allowed opened (with_store m c)
unfolding with_store Allowed next code_of
with_store-Allowed m c = or_exit-Allowed opened (wal_checkpoint_interval m.parse c.storage) _ λ wal.
    or_exit-Allowed opened (upload_interval m.parse c.remote) _
      λ interval. with_uploader-Allowed m c

opening-Allowed :
    (m : Machine) (c : Config) (b : Bool)
    → Allowed locked (if b then opens_store c.storage.path ∷ with_store m c else exits 1 ∷ [])
unfolding Allowed next code_of
opening-Allowed m c true = with_store-Allowed m c
opening-Allowed m c false = fails-Allowed locked

pings-Allowed :
    (p : Pinger) (rest : List Action)
    → Allowed locked rest
    → Allowed locked (watchdog_pings p ++ rest)
unfolding Allowed next code_of
pings-Allowed p rest h = elim (Bool-cases p.enabled) [ inl e ↦ rw e h | inr e ↦ rw e h ]

with_lock-Allowed : (m : Machine) (c : Config) → Allowed locked (with_lock m c)
unfolding with_lock Allowed next code_of
with_lock-Allowed m c =
    pings-Allowed (new_pinger m.watchdog_usec) _ (opening-Allowed m c m.store_opens)

pub main-Allowed : (m : Machine) → Allowed fresh (main m)
unfolding main Allowed next code_of
main-Allowed m = or_exit-Allowed fresh m.loaded _ λ c.
    or_exit-Allowed fresh (validate m.parse c) _ λ u. elim (Bool-cases m.lock_is_free) [
      | inl e ↦ rw e (with_lock-Allowed m c)
      | inr e ↦ rw e (fails-Allowed fresh)
    ]
