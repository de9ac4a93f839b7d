-- ===== src/Uploader/Errors.antt =====
-- The error types of internal/uploader/uploader.go, the classification of a response, isRetryable
-- and parseRetryAfter.
use tidewatch.Base.{
  ℕ, zero, suc, ◌+◌, ◌-◌, ◌*◌, ◌%◌, ◌^◌, Bool, true, false, ◌&&◌, Option, none, some, [], ◌∷◌,
  if◌then◌else◌, ltb, leb, ◌==◌, Text,
}
use tidewatch.Base.Int.{ℤ, pos, sub_ℕ, ltb_ℤ}
use tidewatch.Base.Decimal.{is_digit}

pub data UploadError : Type 0 where
  -- http.NewRequestWithContext failed
  request_failed : UploadError
  -- io.ReadAll failed
  read_failed : UploadError
  -- RetryableError around a transport error, or around a status
  retryable_transport : UploadError
  retryable_status : ℕ → UploadError
  -- NonRetryableError
  non_retryable : ℕ → UploadError
  -- RateLimitError, with the Retry-After in nanoseconds
  rate_limit : ℕ → ℤ → UploadError
  -- ctx.Err()
  context_done : UploadError
  -- fmt.Errorf("non-retryable error: %w", err)
  refused : UploadError → UploadError
  -- fmt.Errorf("max retries (%d) exceeded: %w", …), where no attempt was made and where one was
  exceeded_unattempted : UploadError
  exceeded : UploadError → UploadError

-- One exchange with the server, as http.Client and the body's reader report it.
pub data Exchange : Type 0 where
  no_request transport_error body_error : Exchange
  response : ℕ → Text → Exchange

-- an int64 from a number, wrapping around
unfoldable pub wrap_int64 : ℕ → ℤ
wrap_int64 n = let r = n % 2 ^ 64 in if ltb r (2 ^ 63) then pos r else sub_ℕ r (2 ^ 64)

-- strconv.Atoi on a text without a sign: digits only, within int64
unfoldable pub atoi_digits : ℕ → Text → Option ℕ
atoi_digits n [] = if ltb n (2 ^ 63) then some n else none
atoi_digits n (c ∷ s) =
    let rest = atoi_digits (n * 10 + (c - b'0')) s in if is_digit c then rest else none

-- strconv.Atoi where the result is positive; the program looks at no other
unfoldable pub atoi_positive : Text → Option ℕ
unfolding atoi_digits
atoi_positive [] = none
atoi_positive (c ∷ []) = if is_digit c then atoi_digits 0 (c ∷ []) else none
atoi_positive (c ∷ d ∷ s) = if c == b'+' then atoi_digits 0 (d ∷ s) else atoi_digits 0 (c ∷ d ∷ s)

abbrev pub second : ℕ
second = 1_000_000_000

abbrev until_date : Option ℤ → ℤ
until_date none = pos 0
until_date (some d) = if ltb_ℤ (pos 0) d then d else pos 0

abbrev or_seconds : Option ℕ → ℤ → ℤ
or_seconds none d = d
or_seconds (some zero) d = d
or_seconds (some (suc n)) d = wrap_int64 (suc n * second)

-- `until` is time.Until of an RFC 1123 date, where the header is one.
unfoldable pub parse_retry_after : (Text → Option ℤ) → Text → ℤ
unfolding atoi_positive wrap_int64
parse_retry_after until [] = pos 0
parse_retry_after until (c ∷ s) = or_seconds (atoi_positive (c ∷ s)) (until_date (until (c ∷ s)))

-- uploadChunk: `none` is success.
unfoldable pub classify : (Text → Option ℤ) → Exchange → Option UploadError
unfolding parse_retry_after
classify until no_request = some request_failed
classify until transport_error = some retryable_transport
classify until body_error = some read_failed
classify until (response status retry_after) =
    if leb 200 status && ltb status 300
    then none
    else if status == 400
    then some (non_retryable status)
    else if status == 401
    then some (non_retryable status)
    else if status == 429
    then some (rate_limit status (parse_retry_after until retry_after))
    else some (retryable_status status)

-- errors.As for a NonRetryableError, through the wrapping errors
unfoldable pub is_retryable : UploadError → Bool
is_retryable (non_retryable status) = false
is_retryable (refused e) = is_retryable e
is_retryable (exceeded e) = is_retryable e
is_retryable request_failed = true
is_retryable read_failed = true
is_retryable retryable_transport = true
is_retryable (retryable_status status) = true
is_retryable (rate_limit status after) = true
is_retryable context_done = true
is_retryable exceeded_unattempted = true
