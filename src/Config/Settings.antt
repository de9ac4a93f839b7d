-- ===== src/Config/Settings.antt =====
-- The settings that the uploader gets from an accepted configuration.
use tidewatch.Base.{
  ℕ, zero, suc, ◌≡◌, refl, true, false, Option, none, some, inl, inr, arith, if◌then◌else◌,
  Bool-cases, Text,
}
use tidewatch.Base.Int.{ℤ, pos, negsuc, ◌-ℤ◌}
use tidewatch.Models.{Float64}
use tidewatch.Uploader.Retry.{RetrySettings}
use tidewatch.Config.Floats.{float_lt, float_eq, float_zero, float_one, float_two}
use tidewatch.Config.Types.{RetryConfig, RemoteConfig, Config, good}
use tidewatch.Config.Durations.{get_chunk_size, positive_or}
use tidewatch.Config.Validate.{jitter_in_range, multiplier_valid, validate}
use tidewatch.Config.Sound.{validate-IsUsable}
use tidewatch.Config.Uploads.{
  HttpUploaderConfig, retry_configured, retries_of, enabled_config, uploader_config, new_settings,
  jitter_or_default, set_or_true, value_or,
}

-- Settings that retrying can work with.
pub record IsSafe (s : RetrySettings) (size : ℤ) : Type 0 where
  pub retries : (n : ℕ) × (s.max_retries ≡ pos n)
  pub delay : (n : ℕ) × (s.retry_delay ≡ pos (suc n))
  pub cap : (n : ℕ) × (s.max_backoff ≡ pos (suc n))
  pub multiplier : float_lt s.backoff_multiplier float_one ≡ false
  pub jitter : jitter_in_range (some s.jitter_percent) ≡ true
  pub chunk : (n : ℕ) × (size ≡ pos (suc n))

retries_of_lem : (z : ℤ) → (n : ℕ) × (retries_of z ≡ pos n)
unfolding retries_of ◌-ℤ◌
retries_of_lem (pos zero) = (2, refl)
retries_of_lem (pos (suc zero)) = (0, refl)
retries_of_lem (pos (suc (suc n))) = (suc n, ground arith)
retries_of_lem (negsuc n) = (0, ground arith)

chunk_lem : (r : RemoteConfig) → (n : ℕ) × (get_chunk_size r ≡ pos (suc n))
unfolding get_chunk_size
chunk_lem r = go r.chunk_size
  where
    go : (z : ℤ) → (n : ℕ) × (positive_or 50 z ≡ pos (suc n))
    go (pos zero) = (49, refl)
    go (pos (suc n)) = (n, refl)
    go (negsuc n) = (49, refl)

multiplier_lem :
    (x : Float64)
    → multiplier_valid x ≡ true
    → float_lt (if float_eq x float_zero then float_two else x) float_one ≡ false
multiplier_lem x h = elim (Bool-cases (float_eq x float_zero)) [
  | inl e ↦ rw e (unfold float_lt in refl)
  | inr e ↦ rw e (ground (arith, h, e))
]

jitter_lem :
    (o : Option ℤ)
    → jitter_in_range o ≡ true
    → jitter_in_range (some (value_or 20 (jitter_or_default o))) ≡ true
jitter_lem none h = refl
jitter_lem (some j) h = h

enabled_config-IsSafe :
    (n d m : ℕ) (r : RetryConfig)
    → multiplier_valid r.backoff_multiplier ≡ true
    → jitter_in_range r.jitter_percent ≡ true
    → (c : HttpUploaderConfig) × (enabled_config
          (pos (suc n))
          r
          (good (pos (suc d)))
          (good (pos (suc m)))
        ≡ good c)
      × IsSafe (new_settings c).0 (new_settings c).1
unfolding enabled_config new_settings
enabled_config-IsSafe n d m r mult jit = (
  _,
  refl,
  record {
    retries = retries_of_lem r.max_attempts;
    delay = (d, ground arith);
    cap = (m, ground arith);
    multiplier = multiplier_lem r.backoff_multiplier mult;
    jitter = jitter_lem r.jitter_percent jit;
    chunk = (n, ground arith);
  },
)

-- main never exits over the retry settings of a configuration that Validate accepts, and the uploader
-- gets from it: retries that are not negative, a delay, a maximal backoff and a chunk size that are
-- positive, a multiplier that is not below 1, and a jitter between 0 and 100 percent.
pub uploader_config-IsSafe :
    (parse : Text → Option ℤ) (c : Config)
    → validate parse c ≡ good tt
    → (u : HttpUploaderConfig) × (uploader_config parse c.remote ≡ good u)
      × IsSafe (new_settings u).0 (new_settings u).1
unfolding uploader_config
uploader_config-IsSafe parse c h =
    let u = validate-IsUsable parse c h in
    let (n, chunk) = chunk_lem c.remote in
    let (d, delay) = u.initial in
    let (m, cap) = u.max in
    elim (Bool-cases (retry_configured c.remote.retry)) [
      | inl e ↦ elim (Bool-cases (set_or_true c.remote.retry.enabled)) [
        | inl on ↦
            rw (e, on, chunk, delay, cap)
              (enabled_config-IsSafe n d m c.remote.retry u.multiplier u.jitter)
        | inr off ↦
            rw (e, off, chunk)
              (
                _,
                refl,
                unfold new_settings in
                    record {
                      retries = (0, refl);
                      delay = (_, refl);
                      cap = (_, refl);
                      multiplier = unfold float_eq float_lt in refl;
                      jitter = refl;
                      chunk = (n, ground arith);
                    },
              )
      ]
      | inr e ↦
          rw (e, chunk)
            (
              _,
              refl,
              unfold new_settings in
                  record {
                    retries = (3, refl);
                    delay = (_, refl);
                    cap = (_, refl);
                    multiplier = unfold float_eq float_lt in refl;
                    jitter = refl;
                    chunk = (n, ground arith);
                  },
            )
    ]
