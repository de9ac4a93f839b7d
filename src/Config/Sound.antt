-- ===== src/Config/Sound.antt =====
-- What a configuration that Validate and Load accept promises.
use tidewatch.Base.{
  ℕ, zero, suc, ◌≡◌, refl, ap, Bool, true, false, not, ◌&&◌, Option, none, some, inl, inr, List, [],
  ◌∷◌, arith, if◌then◌else◌, Bool-cases, Text, All,
}
use tidewatch.Base.Int.{ℤ, pos, negsuc, leb_ℤ}
use tidewatch.Config.Types.{
  MetricConfig, Config, Setting, ConfigError, Checked, good, bad, device_id_required, path_required,
  url_required, multiplier_too_small, jitter_out_of_range,
}
use tidewatch.Config.Durations.{
  positive_duration, duration_or, wal_checkpoint_interval, initial_backoff, max_backoff,
  upload_interval, interval_duration,
}
use tidewatch.Config.Validate.{
  ◌>>◌, is_empty, require, jitter_in_range, multiplier_valid, interval_valid, metrics_valid,
  validate,
}

-- A result that is there and positive, as a ticker needs.
abbrev pub IsPositive : Checked ℤ → Type 0
IsPositive r = (n : ℕ) × (r ≡ good (pos (suc n)))

-- An enabled metric has an interval that parses and is positive.
abbrev pub HasInterval : (Text → Option ℤ) → MetricConfig → Type 0
HasInterval parse m = m.enabled ≡ true → (n : ℕ) × (interval_duration parse m ≡ some (pos (suc n)))

pub record IsUsable (parse : Text → Option ℤ) (c : Config) : Type 0 where
  pub device : is_empty c.device_id ≡ false
  pub path : is_empty c.storage.path ≡ false
  pub url : c.remote.enabled ≡ true → is_empty c.remote.url ≡ false
  pub wal : IsPositive (wal_checkpoint_interval parse c.storage)
  pub interval : IsPositive (upload_interval parse c.remote)
  pub initial : IsPositive (initial_backoff parse c.remote.retry)
  pub max : IsPositive (max_backoff parse c.remote.retry)
  pub multiplier : multiplier_valid c.remote.retry.backoff_multiplier ≡ true
  pub jitter : jitter_in_range c.remote.retry.jitter_percent ≡ true
  pub metrics : All (HasInterval parse) c.metrics

>>-eq-good :
    {A : Type 0} {B : Type 0} (r : Checked A) (s : Checked B) {b : B}
    → (r >> s) ≡ good b
    → ((a : A) × (r ≡ good a)) × (s ≡ good b)
unfolding ◌>>◌
>>-eq-good (good a) s h = ((a, refl), h)
>>-eq-good (bad e) s h = absurd (cc)

pub >>_good :
    {A : Type 0} {B : Type 0} (r : Checked A) (s : Checked B) {a : A} → r ≡ good a → (r >> s) ≡ s
unfolding ◌>>◌
>>_good (good b) s h = refl
>>_good (bad e) s h = absurd (cc)

require-eq-good : (b : Bool) (e : ConfigError) {u : Unit {0}} → require b e ≡ good u → b ≡ true
unfolding require
require-eq-good true e h = refl
require-eq-good false e h = absurd (cc)

positive_of : (d : ℤ) → leb_ℤ d (pos 0) ≡ false → (n : ℕ) × (d ≡ pos (suc n))
positive_of (pos zero) h = absurd (ground arith)
positive_of (pos (suc n)) h = (n, refl)
positive_of (negsuc n) h = absurd (ground arith)

positive_duration_lem :
    (s : Setting) (o : Option ℤ) {d : ℤ}
    → positive_duration s o ≡ good d
    → IsPositive (positive_duration s o)
unfolding positive_duration
positive_duration_lem s none h = absurd (cc)
positive_duration_lem s (some d) h = elim (Bool-cases (leb_ℤ d (pos 0))) [
  | inl e ↦ absurd (ground (arith, e, h))
  | inr e ↦ let (n, q) = positive_of d e in (n, rw (e, q) refl)
]

duration_or_lem :
    (parse : Text → Option ℤ) (s : Setting) (default : ℕ) (t : Text) {d : ℤ}
    → duration_or parse s (suc default) t ≡ good d
    → IsPositive (duration_or parse s (suc default) t)
unfolding duration_or
duration_or_lem parse s default [] h = (default, refl)
duration_or_lem parse s default (c ∷ t) h = positive_duration_lem s (parse (c ∷ t)) h

-- a duration that is only read where it was given
duration_given_lem :
    (parse : Text → Option ℤ) (s : Setting) (default : ℕ) (t : Text) {d : ℤ}
    → (if is_empty t then good (pos 0) else duration_or parse s (suc default) t) ≡ good d
    → IsPositive (duration_or parse s (suc default) t)
duration_given_lem parse s default [] h = unfold duration_or in (default, refl)
duration_given_lem parse s default (c ∷ t) h = duration_or_lem parse s default (c ∷ t) h

interval_valid_lem :
    (name : Text) (o : Option ℤ) {u : Unit {0}}
    → interval_valid name o ≡ good u
    → (n : ℕ) × (o ≡ some (pos (suc n)))
unfolding interval_valid
interval_valid_lem name none h = absurd (cc)
interval_valid_lem name (some d) h = elim (Bool-cases (leb_ℤ d (pos 0))) [
  | inl e ↦ absurd (ground (arith, e, h))
  | inr e ↦ let (n, q) = positive_of d e in (n, ap some q)
]

-- only the metrics that are enabled are looked at
enabled_interval :
    (on : Bool) (name : Text) (o : Option ℤ) {u : Unit {0}}
    → (if on then interval_valid name o else good tt) ≡ good u
    → on ≡ true
    → (n : ℕ) × (o ≡ some (pos (suc n)))
enabled_interval true name o h e = interval_valid_lem name o h
enabled_interval false name o h e = absurd (cc)

metrics_valid_lem :
    (parse : Text → Option ℤ) (ms : List MetricConfig) {u : Unit {0}}
    → metrics_valid parse ms ≡ good u
    → All (HasInterval parse) ms
unfolding metrics_valid
metrics_valid_lem parse [] h = tt
metrics_valid_lem parse (m ∷ ms) h =
    let ((_, first), rest) = >>-eq-good _ (metrics_valid parse ms) h in
    (
      enabled_interval m.enabled m.name (interval_duration parse m) first,
      metrics_valid_lem parse ms rest,
    )

-- A configuration that Validate accepts has a device, a storage path, an endpoint where uploads are
-- enabled, positive durations from all of its getters and on all enabled metrics, a backoff multiplier
-- that is 0 or at least 1, and a jitter between 0 and 100 percent.
pub validate-IsUsable :
    (parse : Text → Option ℤ) (c : Config) → validate parse c ≡ good tt → IsUsable parse c
unfolding validate wal_checkpoint_interval upload_interval initial_backoff max_backoff duration_or
validate-IsUsable parse c h =
    let retry = c.remote.retry in
    let ((_, device), h1) =
      >>-eq-good (require (not (is_empty c.device_id)) device_id_required) _ h in
    let ((_, path), h2) = >>-eq-good (require (not (is_empty c.storage.path)) path_required) _ h1 in
    let ((_, url), h3) =
      >>-eq-good (require (not (c.remote.enabled && is_empty c.remote.url)) url_required) _ h2 in
    let ((_, wal), h4) = >>-eq-good (wal_checkpoint_interval parse c.storage) _ h3 in
    let ((_, interval), h5) = >>-eq-good (upload_interval parse c.remote) _ h4 in
    let ((_, initial), h6) =
      >>-eq-good
        (if is_empty retry.initial_backoff_str then good (pos 0) else initial_backoff parse retry) _
        h5 in
    let ((_, max), h7) =
      >>-eq-good (if is_empty retry.max_backoff_str then good (pos 0) else max_backoff parse retry)
        _ h6 in
    let ((_, multiplier), h8) =
      >>-eq-good (require (multiplier_valid retry.backoff_multiplier) multiplier_too_small) _ h7 in
    let ((_, jitter), h9) =
      >>-eq-good (require (jitter_in_range retry.jitter_percent) jitter_out_of_range) _ h8 in
    let url_ok = require-eq-good _ _ url in
    record {
      device = ground (arith, require-eq-good _ _ device);
      path = ground (arith, require-eq-good _ _ path);
      url = λ on. ground (arith, url_ok, on);
      wal = duration_or_lem parse _ _ c.storage.wal_checkpoint_interval_str wal;
      interval = duration_or_lem parse _ _ c.remote.upload_interval_str interval;
      initial = duration_given_lem parse _ _ c.remote.retry.initial_backoff_str initial;
      max = duration_given_lem parse _ _ c.remote.retry.max_backoff_str max;
      multiplier = require-eq-good _ _ multiplier;
      jitter = require-eq-good _ _ jitter;
      metrics = metrics_valid_lem parse c.metrics h9;
    }
