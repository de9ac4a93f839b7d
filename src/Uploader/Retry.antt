-- ===== src/Uploader/Retry.antt =====
-- uploadChunkWithRetry and calculateBackoff of internal/uploader/uploader.go.
pub mod Attempts
use tidewatch.Base.{
  ℕ, zero, suc, ◌+◌, ◌*◌, ◌≤◌, ◌≡◌, Bool, true, false, ◌&&◌, Option, none, some, List, [], ◌∷◌,
  if◌then◌else◌, Text,
}
use tidewatch.Base.Int.{ℤ, pos, negsuc, ltb_ℤ, ◌+ℤ◌}
use tidewatch.Models.{Float64}
use tidewatch.Uploader.Errors.{
  UploadError, Exchange, classify, is_retryable, rate_limit, context_done, refused,
  exceeded_unattempted, exceeded, second,
}

-- Float64 arithmetic, on bit patterns.
pub record FloatOps : Type 0 where
  pub of_int : ℤ → Float64
  pub pow : Float64 → Float64 → Float64
  pub mul : Float64 → Float64 → Float64
  pub div : Float64 → Float64 → Float64
  pub add : Float64 → Float64 → Float64
  pub sub : Float64 → Float64 → Float64
  pub lt : Float64 → Float64 → Bool
  -- time.Duration(x)
  pub to_duration : Float64 → ℤ

-- The fields of HTTPUploader that retrying reads.
pub record RetrySettings : Type 0 where
  pub max_retries : ℤ
  pub retry_delay : ℤ
  pub max_backoff : ℤ
  pub backoff_multiplier : Float64
  pub jitter_percent : ℤ

abbrev capped : FloatOps → Float64 → Float64 → Float64
capped o cap x = if o.lt cap x then cap else x

unfoldable pub exponential_backoff : FloatOps → RetrySettings → ℕ → Float64 → ℤ
exponential_backoff o u attempt rand =
    let raw =
      o.mul (o.of_int u.retry_delay) (o.pow u.backoff_multiplier (o.of_int (pos attempt))) in
    let backoff = capped o (o.of_int u.max_backoff) raw in
    let fraction = o.div (o.of_int u.jitter_percent) (o.of_int (pos 100)) in
    let jitter =
      o.mul (o.mul backoff fraction) (o.sub (o.mul rand (o.of_int (pos 2))) (o.of_int (pos 1))) in
    o.to_duration (o.add backoff jitter)

-- `rand` is the value of u.rng.Float64().
unfoldable pub calculate_backoff : FloatOps → RetrySettings → ℕ → UploadError → Float64 → ℤ
unfolding exponential_backoff
calculate_backoff o u attempt (rate_limit status after) rand =
    if ltb_ℤ (pos 0) after
    then after +ℤ o.to_duration (o.mul rand (o.of_int (pos second)))
    else exponential_backoff o u attempt rand
calculate_backoff o u attempt e rand = exponential_backoff o u attempt rand

-- What the surroundings do at one attempt: whether the context is done before it, what the server
-- answers, the random number, and whether the context is done before the wait is over.
pub record Attempt : Type 0 where
  pub cancelled : Bool
  pub exchange : Exchange
  pub rand : Float64
  pub cancelled_wait : Bool

-- The loop's result, with the requests it sent and the delays it waited for.
pub record Run : Type 0 where
  pub outcome : Option UploadError
  pub requests : ℕ
  pub waits : List ℤ

pub record Remote : Type 0 where
  pub floats : FloatOps
  pub settings : RetrySettings
  -- time.Until of an RFC 1123 date
  pub until : Text → Option ℤ

abbrev ended : Option UploadError → ℕ → Run
ended outcome requests = record { outcome = outcome; requests = requests; waits = [] }

abbrev exceeded_error : Option UploadError → UploadError
exceeded_error none = exceeded_unattempted
exceeded_error (some e) = exceeded e

abbrev waited : ℤ → Run → Run
waited delay r = record r { requests = r.requests + 1; waits = delay ∷ r.waits }

-- The wait after a retryable error, cut short or not.
unfoldable pub wait_and_go_on : Bool → ℤ → Run → Run
wait_and_go_on true delay rest = record {
  outcome = some context_done;
  requests = 1;
  waits = delay ∷ [];
}
wait_and_go_on false delay rest = waited delay rest

-- After an error: give up, or go on with `rest`. The last attempt does not sleep.
unfoldable pub after_error :
    Remote → Attempt → ℕ → ℕ → UploadError → Bool → (UploadError → Run) → Run
unfolding wait_and_go_on
after_error u a left attempt e false rest = ended (some (refused e)) 1
after_error u a zero attempt e true rest = ended (some (exceeded e)) 1
after_error u a (suc left) attempt e true rest =
    wait_and_go_on a.cancelled_wait (calculate_backoff u.floats u.settings attempt e a.rand)
      (rest e)

-- One round of the loop: its context check, the answer, and the rest of the loop.
unfoldable pub attempt_once :
    Remote → Attempt → ℕ → ℕ → Bool → Option UploadError → (UploadError → Run) → Run
unfolding after_error
attempt_once u a left attempt true answer rest = ended (some context_done) 0
attempt_once u a left attempt false none rest = ended none 1
attempt_once u a left attempt false (some e) rest =
    after_error u a left attempt e (is_retryable e) rest

-- `left` attempts are left; `last` is lastErr.
unfoldable pub attempts : Remote → (ℕ → Attempt) → ℕ → ℕ → Option UploadError → Run
unfolding attempt_once
attempts u env zero attempt last = ended (some (exceeded_error last)) 0
attempts u env (suc left) attempt last =
    attempt_once u (env attempt) left attempt (env attempt).cancelled
      (classify u.until (env attempt).exchange) (λ e. attempts u env left (attempt + 1) (some e))

-- `for attempt := 0; attempt <= u.maxRetries; attempt++`
unfoldable pub rounds : ℤ → ℕ
rounds (pos n) = n + 1
rounds (negsuc n) = 0

unfoldable pub upload_chunk_with_retry : Remote → (ℕ → Attempt) → Run
unfolding attempts rounds
upload_chunk_with_retry u env = attempts u env (rounds u.settings.max_retries) 0 none
