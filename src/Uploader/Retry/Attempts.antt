-- ===== src/Uploader/Retry/Attempts.antt =====
-- What uploadChunkWithRetry does, by the answers that it gets.
use tidewatch.Base.{
  ℕ, zero, suc, ◌+◌, ◌-◌, ◌≤◌, ◌<◌, ◌≡◌, refl, sym, subst, ◌∙◌, Bool, true, false, Option, none,
  some, inl, inr, ◌⊎◌, ◌↔◌, arith, length,
}
use tidewatch.Base.Int.{pos}
use tidewatch.Uploader.Errors.{UploadError, classify, is_retryable, exceeded}
use tidewatch.Uploader.Retry.{
  Attempt, Run, Remote, attempts, rounds, upload_chunk_with_retry, attempt_once, after_error,
  wait_and_go_on,
}

-- The server took the chunk at this attempt.
abbrev pub Accepts : Remote → Attempt → Type 0
Accepts u a = (a.cancelled ≡ false) × (classify u.until a.exchange ≡ none)

-- The attempt failed in a way that is tried again.
abbrev pub Fails : Remote → Attempt → Type 0
Fails u a =
    (a.cancelled ≡ false)
    × ((e : UploadError) × (classify u.until a.exchange ≡ some e) × (is_retryable e ≡ true))

-- … and the wait after it was not cut short.
abbrev pub TriesAgain : Remote → Attempt → Type 0
TriesAgain u a = Fails u a × (a.cancelled_wait ≡ false)

-- Within `left` attempts from `attempt` on, the `n`-th is accepted after retries only.
abbrev pub Delivers : Remote → (ℕ → Attempt) → ℕ → ℕ → ℕ → Type 0
Delivers u env zero attempt n = ⊥
Delivers u env (suc left) attempt n =
    (Accepts u (env attempt) × (n ≡ 1))
    ⊎ (TriesAgain u (env attempt) × ((k : ℕ) × (n ≡ k + 1) × Delivers u env left (attempt + 1) k))

-- All of the next `left` attempts fail, and none of the waits between them is cut short.
abbrev pub FailsAll : Remote → (ℕ → Attempt) → ℕ → ℕ → Type 0
FailsAll u env zero attempt = Unit
FailsAll u env (suc zero) attempt = Fails u (env attempt)
FailsAll u env (suc (suc left)) attempt =
    TriesAgain u (env attempt) × FailsAll u env (suc left) (attempt + 1)

abbrev Bounded : ℕ → Run → Type 0
Bounded left r = (r.requests ≤ left) × (length r.waits ≤ left - 1)

-- Within one round, success is an accepted attempt or a later success after a retry.
once_success :
    (u : Remote) (a : Attempt) (left attempt : ℕ) (rest : UploadError → Run) (cancelled : Bool)
    (answer : Option UploadError)
    → a.cancelled ≡ cancelled
    → classify u.until a.exchange ≡ answer
    → let r = attempt_once u a left attempt cancelled answer rest in
      r.outcome ≡ none
      → (Accepts u a × (r.requests ≡ 1))
        ⊎ (TriesAgain u a
            × (0 < left)
            × ((e : UploadError) × ((rest e).outcome ≡ none)
                × (r.requests ≡ (rest e).requests + 1)))
unfolding attempt_once
once_success u a left attempt rest true answer ec ea h = cc
once_success u a left attempt rest false none ec ea h = inl ((ec, ea), refl)
once_success u a left attempt rest false (some e) ec ea h =
    go left (is_retryable e) a.cancelled_wait refl refl h
  where
    go :
        (left : ℕ) (retry cut : Bool)
        → is_retryable e ≡ retry
        → a.cancelled_wait ≡ cut
        → let r = after_error u a left attempt e retry rest in
          r.outcome ≡ none
          → (Accepts u a × (r.requests ≡ 1))
            ⊎ (TriesAgain u a
                × (0 < left)
                × ((e : UploadError) × ((rest e).outcome ≡ none)
                    × (r.requests ≡ (rest e).requests + 1)))
    go left false cut er ew = λ h. cc
    go zero true cut er ew = λ h. cc
    go (suc left) true true er ew = rw (ew, wait_and_go_on) (λ h. cc)
    go (suc left) true false er ew =
        rw (ew, wait_and_go_on) λ h. inr (((ec, (e, ea, er)), refl), omega arith, (e, h, refl))

success→Delivers :
    (u : Remote) (env : ℕ → Attempt) (left attempt : ℕ) (last : Option UploadError)
    → let r = attempts u env left attempt last in
      r.outcome ≡ none → Delivers u env left attempt r.requests
unfolding attempts
success→Delivers u env zero attempt last h = cc
success→Delivers u env (suc left) attempt last h =
    elim (once_success u (env attempt) left attempt rest _ _ refl refl h) [
      | inl (a, n) ↦ inl (a, n)
      | inr (t, _, (e, o, n)) ↦
          inr (t, ((rest e).requests, n, success→Delivers u env left (attempt + 1) (some e) o))
    ]
  where
    rest : UploadError → Run
    rest e = attempts u env left (attempt + 1) (some e)

retried :
    (u : Remote) (env : ℕ → Attempt) (left attempt : ℕ) (last : Option UploadError)
    → TriesAgain u (env attempt)
    → (e : UploadError) × ((attempts u env (suc (suc left)) attempt last).outcome
        ≡ (attempts u env (suc left) (attempt + 1) (some e)).outcome)
      × ((attempts u env (suc (suc left)) attempt last).requests
          ≡ (attempts u env (suc left) (attempt + 1) (some e)).requests + 1)
      × (length (attempts u env (suc (suc left)) attempt last).waits
          ≡ length (attempts u env (suc left) (attempt + 1) (some e)).waits + 1)
unfolding attempts
retried u env left attempt last ((c, (e, a, r)), w) = (e, ground arith, ground arith, ground arith)

Delivers→success :
    (u : Remote) (env : ℕ → Attempt) (left attempt : ℕ) (last : Option UploadError) (n : ℕ)
    → Delivers u env left attempt n
    → ((attempts u env left attempt last).outcome ≡ none)
      × ((attempts u env left attempt last).requests ≡ n)
Delivers→success u env zero attempt last n d = elim d [ ]
Delivers→success u env (suc left) attempt last n (inl ((c, a), e)) =
    unfold attempts in rw (c, a) (refl, sym e)
Delivers→success u env (suc zero) attempt last n (inr (t, (k, e, d))) = elim d [ ]
Delivers→success u env (suc (suc left)) attempt last n (inr (t, (k, e, d))) =
    let (err, o, r, w) = retried u env left attempt last t in
    let (o', r') = Delivers→success u env (suc left) (attempt + 1) (some err) k d in
    (o ∙ o', omega arith)

-- uploadChunkWithRetry reports success after n requests exactly when, within its maxRetries + 1
-- attempts, the n-th attempt finds the context not done and gets a 2xx answer, and every attempt
-- before it found the context not done, got an error that is retried, and waited to the end.
pub upload_chunk_with_retry_iff :
    (u : Remote) (env : ℕ → Attempt) (n : ℕ)
    → (((upload_chunk_with_retry u env).outcome ≡ none)
        × ((upload_chunk_with_retry u env).requests ≡ n))
      ↔ Delivers u env (rounds u.settings.max_retries) 0 n
unfolding upload_chunk_with_retry
upload_chunk_with_retry_iff u env n = (
  λ h.
      subst (Delivers u env (rounds u.settings.max_retries) 0) h.1
        (success→Delivers u env (rounds u.settings.max_retries) 0 none h.0),
  Delivers→success u env (rounds u.settings.max_retries) 0 none n,
)

-- the run when nothing but retried errors comes back
abbrev IsExhausted : ℕ → Run → Type 0
IsExhausted left r =
    ((e : UploadError) × (r.outcome ≡ some (exceeded e)))
    × (r.requests ≡ left)
    × (length r.waits + 1 ≡ left)

last_failure :
    (u : Remote) (env : ℕ → Attempt) (attempt : ℕ) (last : Option UploadError)
    → Fails u (env attempt)
    → IsExhausted 1 (attempts u env 1 attempt last)
unfolding attempts
last_failure u env attempt last (c, (e, a, r)) = rw (c, a, r, after_error) ((e, refl), refl, refl)

attempts-IsExhausted :
    (u : Remote) (env : ℕ → Attempt) (left attempt : ℕ) (last : Option UploadError)
    → FailsAll u env (suc left) attempt
    → IsExhausted (suc left) (attempts u env (suc left) attempt last)
attempts-IsExhausted u env zero attempt last f = last_failure u env attempt last f
attempts-IsExhausted u env (suc left) attempt last (t, f) =
    let (e, o, r, w) = retried u env left attempt last t in
    let ((e', o'), r', w') = attempts-IsExhausted u env left (attempt + 1) (some e) f in
    ((e', o ∙ o'), omega arith, omega arith)

-- If maxRetries is not negative and every attempt gets an error that is retried, with no context done
-- and no wait cut short, then the error is "max retries exceeded" after exactly maxRetries + 1
-- requests and maxRetries waits.
pub upload_chunk_with_retry_exhausted :
    (u : Remote) (env : ℕ → Attempt) (max : ℕ)
    → u.settings.max_retries ≡ pos max
    → FailsAll u env (suc max) 0
    → let r = upload_chunk_with_retry u env in
      ((e : UploadError) × (r.outcome ≡ some (exceeded e)))
      × (r.requests ≡ suc max)
      × (length r.waits ≡ max)
unfolding upload_chunk_with_retry
upload_chunk_with_retry_exhausted u env max e f =
    let n : rounds u.settings.max_retries ≡ suc max = rw e (omega arith) in
    rw n (let (o, r, w) = attempts-IsExhausted u env max 0 none f in (o, r, omega arith))
