-- ===== src/Config/Complete.antt =====
-- Validate accepts every usable configuration, and Load gives usable ones only.
use tidewatch.Base.{
  ℕ, suc, ◌≡◌, refl, ap, ◌∙◌, Bool, true, false, not, ◌&&◌, Option, some, List, [], ◌∷◌, arith, ◌↔◌,
  if◌then◌else◌, Text, All,
}
use tidewatch.Base.Int.{ℤ, pos}
use tidewatch.Config.Types.{
  MetricConfig, Config, ConfigError, Checked, good, device_id_required, path_required, url_required,
  multiplier_too_small, jitter_out_of_range,
}
use tidewatch.Config.Durations.{
  wal_checkpoint_interval, initial_backoff, max_backoff, upload_interval, interval_duration,
}
use tidewatch.Config.Validate.{
  is_empty, require, jitter_in_range, multiplier_valid, interval_valid, metrics_valid, validate,
}
use tidewatch.Config.Sound.{IsPositive, HasInterval, IsUsable, >>_good, validate-IsUsable}

require-true : (b : Bool) (e : ConfigError) → b ≡ true → require b e ≡ good tt
unfolding require
require-true true e h = refl
require-true false e h = absurd (cc)

given_good :
    (t : Text) (r : Checked ℤ)
    → IsPositive r
    → (d : ℤ) × ((if is_empty t then good (pos 0) else r) ≡ good d)
given_good [] r h = (pos 0, refl)
given_good (c ∷ t) r (n, h) = (pos (suc n), h)

metric_good :
    (on : Bool) (name : Text) (o : Option ℤ)
    → (on ≡ true → (n : ℕ) × (o ≡ some (pos (suc n))))
    → (if on then interval_valid name o else good tt) ≡ good tt
unfolding interval_valid
metric_good true name o h = let (n, e) = h refl in rw e (ground arith)
metric_good false name o h = refl

metrics_good :
    (parse : Text → Option ℤ) (ms : List MetricConfig)
    → All (HasInterval parse) ms
    → metrics_valid parse ms ≡ good tt
unfolding metrics_valid
metrics_good parse [] h = refl
metrics_good parse (m ∷ ms) (h, hs) =
    >>_good _ _ (metric_good m.enabled m.name (interval_duration parse m) h)
    ∙ metrics_good parse ms hs

usable_accepted :
    (parse : Text → Option ℤ) (c : Config) → IsUsable parse c → validate parse c ≡ good tt
unfolding validate
usable_accepted parse c u =
    let retry = c.remote.retry in
    >>_good (require (not (is_empty c.device_id)) device_id_required) _
      (require-true _ _ (ap not u.device))
    ∙ >>_good (require (not (is_empty c.storage.path)) path_required) _
        (require-true _ _ (ap not u.path))
    ∙ >>_good (require (not (c.remote.enabled && is_empty c.remote.url)) url_required) _
        (require-true _ _ (ground (arith, u.url)))
    ∙ >>_good (wal_checkpoint_interval parse c.storage) _ u.wal.1
    ∙ >>_good (upload_interval parse c.remote) _ u.interval.1
    ∙ >>_good
        (if is_empty retry.initial_backoff_str then good (pos 0) else initial_backoff parse retry) _
        (given_good retry.initial_backoff_str _ u.initial).1
    ∙ >>_good (if is_empty retry.max_backoff_str then good (pos 0) else max_backoff parse retry) _
        (given_good retry.max_backoff_str _ u.max).1
    ∙ >>_good (require (multiplier_valid retry.backoff_multiplier) multiplier_too_small) _
        (require-true _ _ u.multiplier)
    ∙ >>_good (require (jitter_in_range retry.jitter_percent) jitter_out_of_range) _
        (require-true _ _ u.jitter)
    ∙ metrics_good parse c.metrics u.metrics

-- Validate accepts a configuration exactly when it has a device, a storage path, an endpoint where
-- uploads are enabled, positive durations from all of its getters and on all enabled metrics, a backoff
-- multiplier that is 0 or not below 1, and a jitter between 0 and 100 percent.
pub validate_iff :
    (parse : Text → Option ℤ) (c : Config) → (validate parse c ≡ good tt) ↔ IsUsable parse c
validate_iff parse c = (validate-IsUsable parse c, usable_accepted parse c)
