-- ===== src/Startup/Exit.antt =====
-- With which code the process exits.
use tidewatch.Base.{
  ℕ, ◌≡◌, refl, ◌∙◌, ap, ◌⊎◌, inl, inr, Option, none, some, Bool, true, false, ◌&&◌, List, [], ◌∷◌,
  ◌++◌, map, Bool-cases, Text, Dict, if◌then◌else◌,
}
use tidewatch.Base.Int.{ℤ}
use tidewatch.Config.Types.{Config, ConfigError, Checked, good, bad}
use tidewatch.Config.Durations.{wal_checkpoint_interval, upload_interval}
use tidewatch.Config.Validate.{is_empty, validate}
use tidewatch.Config.Uploads.{uploader_config}
use tidewatch.Config.Sound.{validate-IsUsable}
use tidewatch.Config.Settings.{uploader_config-IsSafe}
use tidewatch.Watchdog.{new_pinger, is_running_under_systemd}
use tidewatch.Startup.{
  CollectorKind, Action, takes_lock, starts_watchdog, closes_uploader, Machine, notifies_ready,
  notifies_stopping, exits, collection, only_if, or_exit, main, with_lock, with_store,
  with_uploader, with_services, with_upload_loop, until_shutdown, clock_services, deferred,
  initialize_collectors,
}
use tidewatch.LockFile.{get_lock_path}
use tidewatch.Pipeline.Background.{normalize_storage_path}
use tidewatch.Startup.Guarded.{code_of}

-- The code of the first exit.
pub exit_code : List Action → Option ℕ
exit_code [] = none
exit_code (a ∷ rest) = elim (code_of a) [ some code ↦ some code | none ↦ exit_code rest ]

or_exit-exit_code :
    {A : Type 0} (r : Checked A) (rest : A → List Action) (a : A)
    → r ≡ good a
    → exit_code (or_exit r rest) ≡ exit_code (rest a)
or_exit-exit_code (bad x) rest a e = cc
or_exit-exit_code (good b) rest a e = ap (λ y. exit_code (rest y)) (cc e)

collection-exit_code :
    (rest : List Action) (m : Dict (CollectorKind × ℤ))
    → exit_code (map collection m ++ rest) ≡ exit_code rest
unfolding exit_code code_of
collection-exit_code rest [] = refl
collection-exit_code rest (e ∷ m) = collection-exit_code rest m

clock_services-exit_code :
    (rest : List Action) (x : Machine) (c : Config)
    → exit_code (clock_services x c ++ rest) ≡ exit_code rest
unfolding exit_code code_of clock_services
clock_services-exit_code rest x c = elim (Bool-cases (is_empty c.monitoring.clock_skew_url)) [
  | inl e ↦ rw e refl
  | inr e ↦ rw e refl
]

only_if-exit_code :
    (b : Bool) (a : Action) (rest : List Action)
    → code_of a ≡ none
    → exit_code (only_if b a ++ rest) ≡ exit_code rest
unfolding exit_code
only_if-exit_code true a rest e =
    ap (λ code. elim code [ some n ↦ some n | none ↦ exit_code rest ]) e
only_if-exit_code false a rest e = refl

until_shutdown-exit_code : (m : Machine) (c : Config) → exit_code (until_shutdown m c) ≡ some 0
unfolding until_shutdown deferred exit_code code_of
until_shutdown-exit_code m c =
    clock_services-exit_code _ m c
    ∙ only_if-exit_code (is_running_under_systemd m.notify_socket m.invocation_id) notifies_ready _
        refl
    ∙ only_if-exit_code (is_running_under_systemd m.notify_socket m.invocation_id) notifies_stopping
        _ refl
    ∙ only_if-exit_code c.remote.enabled closes_uploader _ refl

either-exit_code :
    (b : Bool) (xs ys : List Action) (code : Option ℕ)
    → exit_code xs ≡ code
    → exit_code ys ≡ code
    → exit_code (if b then xs else ys) ≡ code
either-exit_code true xs ys code h k = h
either-exit_code false xs ys code h k = k

module _ (m : Machine) (c : Config) (v : validate m.parse c ≡ good tt) where
  with_upload_loop-exit_code : exit_code (with_upload_loop m c) ≡ some 0
  unfolding with_upload_loop exit_code code_of
  with_upload_loop-exit_code =
      let (n, e) = (validate-IsUsable m.parse c v).interval in
      either-exit_code c.remote.enabled _ _ (some 0)
        (or_exit-exit_code (upload_interval m.parse c.remote) _ _ e ∙ until_shutdown-exit_code m c)
        (until_shutdown-exit_code m c)

  with_services-exit_code : exit_code (with_services m c) ≡ some 0
  unfolding with_services exit_code code_of
  with_services-exit_code =
      collection-exit_code (with_upload_loop m c) (initialize_collectors m.parse c)
      ∙ with_upload_loop-exit_code

  with_uploader-exit_code : exit_code (with_uploader m c) ≡ some 0
  unfolding with_uploader exit_code code_of
  with_uploader-exit_code =
      let (u, e, _) = uploader_config-IsSafe m.parse c v in
      either-exit_code c.remote.enabled _ _ (some 0)
        (or_exit-exit_code (uploader_config m.parse c.remote) _ _ e ∙ with_services-exit_code)
        with_services-exit_code

  with_store-exit_code : exit_code (with_store m c) ≡ some 0
  unfolding with_store exit_code code_of
  with_store-exit_code =
      let (_, wal) = (validate-IsUsable m.parse c v).wal in
      let (_, interval) = (validate-IsUsable m.parse c v).interval in
      or_exit-exit_code (wal_checkpoint_interval m.parse c.storage) _ _ wal
      ∙ or_exit-exit_code (upload_interval m.parse c.remote) _ _ interval
      ∙ with_uploader-exit_code

  with_lock-exit_code : exit_code (with_lock m c) ≡ some (if m.store_opens then 0 else 1)
  unfolding with_lock exit_code code_of
  with_lock-exit_code =
      only_if-exit_code (new_pinger m.watchdog_usec).enabled (starts_watchdog _) _ refl
      ∙ elim (Bool-cases m.store_opens) [ inl e ↦ rw e with_store-exit_code | inr e ↦ rw e refl ]

-- Whether main accepts its configuration file.
unfoldable pub is_accepted : Machine → Bool
is_accepted m = elim m.loaded [
  | bad e ↦ false
  | good c ↦ elim (validate m.parse c) [ bad e ↦ false | good u ↦ true ]
]

guarded-exit_code :
    (b : Bool) (path : Text) (rest : List Action) (x : Bool)
    → exit_code rest ≡ some (if x then 0 else 1)
    → exit_code (if b then takes_lock path ∷ rest else exits 1 ∷ [])
      ≡ some (if b && x then 0 else 1)
unfolding exit_code code_of
guarded-exit_code true path rest x h = h
guarded-exit_code false path rest x h = refl

validated-exit_code :
    (m : Machine) (c : Config) (r : Checked (Unit {0}))
    → validate m.parse c ≡ r
    → exit_code (
        or_exit r λ u.
          if m.lock_is_free
          then takes_lock (get_lock_path (normalize_storage_path m.abs c.storage.path))
            ∷ with_lock m c
          else exits 1 ∷ [])
      ≡ some (
          if (elim r [ bad e ↦ false | good u ↦ true ]) && m.lock_is_free && m.store_opens
          then 0
          else 1)
unfolding exit_code code_of
validated-exit_code m c (bad x) v = refl
validated-exit_code m c (good u) v =
    guarded-exit_code m.lock_is_free _ (with_lock m c) m.store_opens (with_lock-exit_code m c v)

Checked-cases :
    {A : Type 0} (r : Checked A) → ((a : A) × (r ≡ good a)) ⊎ ((x : ConfigError) × (r ≡ bad x))
Checked-cases (good a) = inl (a, refl)
Checked-cases (bad x) = inr (x, refl)

-- The process exits with 0, after a signal, exactly when the configuration file is read and accepted,
-- the lock is free and the store opens; otherwise it exits with 1. So the later checks of the settings
-- never fail.
pub main-exit_code :
    (m : Machine)
    → exit_code (main m) ≡ some (if is_accepted m && m.lock_is_free && m.store_opens then 0 else 1)
unfolding main exit_code code_of is_accepted
main-exit_code m = elim (Checked-cases m.loaded) [
  | inl (c, e) ↦ rw e (validated-exit_code m c (validate m.parse c) refl)
  | inr (x, e) ↦ rw e refl
]
