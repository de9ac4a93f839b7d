-- ===== src/Config/Validate.antt =====
-- Validate, Load and the reading of the token file of internal/config/config.go.
use tidewatch.Base.{
  Bool, true, false, not, ◌&&◌, ◌||◌, Option, none, some, List, [], ◌∷◌, if◌then◌else◌, Text,
}
use tidewatch.Base.Int.{ℤ, pos, ltb_ℤ, leb_ℤ}
use tidewatch.Models.{Float64}
use tidewatch.Config.Floats.{float_lt, float_eq, float_zero, float_one}
use tidewatch.Config.Types.{
  MetricConfig, Config, ConfigError, Checked, good, bad, device_id_required, path_required,
  url_required, multiplier_too_small, jitter_out_of_range, invalid_interval,
  interval_must_be_positive, read_failed, parse_failed, both_tokens, token_read_failed,
  token_file_empty, invalid_config,
}
use tidewatch.Config.Durations.{
  wal_checkpoint_interval, initial_backoff, max_backoff, upload_interval, interval_duration,
}

-- the checks in turn, up to the first that fails
infixr 55 ◌>>◌
unfoldable pub ◌>>◌ {ℓ κ} : {A : Type ℓ} {B : Type κ} → Checked A → Checked B → Checked B
good a >> r = r
bad e >> r = bad e

abbrev pub is_empty : Text → Bool
is_empty [] = true
is_empty (c ∷ s) = false

unfoldable pub require : Bool → ConfigError → Checked (Unit {0})
require true e = good tt
require false e = bad e

abbrev pub jitter_in_range : Option ℤ → Bool
jitter_in_range none = true
jitter_in_range (some j) = not (ltb_ℤ j (pos 0) || ltb_ℤ (pos 100) j)

abbrev pub multiplier_valid : Float64 → Bool
multiplier_valid x = float_eq x float_zero || not (float_lt x float_one)

unfoldable pub interval_valid : Text → Option ℤ → Checked (Unit {0})
interval_valid name none = bad (invalid_interval name)
interval_valid name (some d) =
    if leb_ℤ d (pos 0) then bad (interval_must_be_positive name) else good tt

unfoldable pub metrics_valid : (Text → Option ℤ) → List MetricConfig → Checked (Unit {0})
unfolding interval_valid interval_duration ◌>>◌
metrics_valid parse [] = good tt
metrics_valid parse (m ∷ ms) =
    (if m.enabled then interval_valid m.name (interval_duration parse m) else good tt)
    >> metrics_valid parse ms

unfoldable pub validate : (Text → Option ℤ) → Config → Checked (Unit {0})
unfolding metrics_valid require ◌>>◌
validate parse c =
    let retry = c.remote.retry in
    require (not (is_empty c.device_id)) device_id_required
    >> require (not (is_empty c.storage.path)) path_required
    >> require (not (c.remote.enabled && is_empty c.remote.url)) url_required
    >> wal_checkpoint_interval parse c.storage
    >> upload_interval parse c.remote
    >> (if is_empty retry.initial_backoff_str then good (pos 0) else initial_backoff parse retry)
    >> (if is_empty retry.max_backoff_str then good (pos 0) else max_backoff parse retry)
    >> require (multiplier_valid retry.backoff_multiplier) multiplier_too_small
    >> require (jitter_in_range retry.jitter_percent) jitter_out_of_range
    >> metrics_valid parse c.metrics

-- The files, the YAML decoder and strings.TrimSpace.
pub record Sources : Type 0 where
  pub read_file : Text → Option Text
  pub unmarshal : Text → Option Config
  pub trim_space : Text → Text

abbrev token_of : Text → Checked Text
token_of [] = bad token_file_empty
token_of (c ∷ t) = good (c ∷ t)

abbrev trimmed : (Text → Text) → Option Text → Checked Text
trimmed trim none = bad token_read_failed
trimmed trim (some text) = token_of (trim text)

unfoldable pub load_auth_token_from_file : Sources → Text → Checked Text
load_auth_token_from_file s path = trimmed s.trim_space (s.read_file path)

abbrev wrapped : Config → Checked (Unit {0}) → Checked Config
wrapped c (good u) = good c
wrapped c (bad e) = bad (invalid_config e)

abbrev with_token : (Text → Option ℤ) → Config → Checked Text → Checked Config
with_token parse c (bad e) = bad e
with_token parse c (good token) =
    let c = record c { remote = record c.remote { auth_token = token } } in
    wrapped c (validate parse c)

abbrev loaded : (Text → Option ℤ) → Sources → Config → Checked Config
loaded parse s c =
    if not (is_empty c.remote.auth_token) && not (is_empty c.remote.auth_token_file)
    then bad both_tokens
    else with_token parse c (
        if is_empty c.remote.auth_token_file
        then good c.remote.auth_token
        else load_auth_token_from_file s c.remote.auth_token_file)

abbrev parsed : (Text → Option ℤ) → Sources → Option Config → Checked Config
parsed parse s none = bad parse_failed
parsed parse s (some c) = loaded parse s c

abbrev decoded : (Text → Option ℤ) → Sources → Option Text → Checked Config
decoded parse s none = bad read_failed
decoded parse s (some text) = parsed parse s (s.unmarshal text)

unfoldable pub load : (Text → Option ℤ) → Sources → Text → Checked Config
unfolding load_auth_token_from_file validate
load parse s path = decoded parse s (s.read_file path)
