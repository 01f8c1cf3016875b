-- ===== src/Model/Retry.antt =====
-- model/retry.go: calling again after an error that may pass.
pub mod Retryable
use simple_agent_framework.Prelude.{
  ℕ, suc, zero, ◌+◌, ◌≤◌, ◌≡◌, refl, Bool, if◌then◌else◌, Option, none, some, [], ◌++◌, arith,
}
use simple_agent_framework.Prelude.Int.{ℤ, pos, negsuc}
use simple_agent_framework.Prelude.Text.{Text, codes}
use simple_agent_framework.Errors.{Error, error_text, Exec, Result, ok, err}

-- What `Do` reads and calls: delays in nanoseconds, `nextDelay`, which computes in floating point
-- and reads the clock, and `isRetryable`. `pause` waits for the delay or the context, whichever ends first.
pub record ExponentialBackoff (W : Type 0) : Type 0 where
  pub base_delay : ℕ
  pub max_retries : ℤ
  pub next_delay : ℕ → W → ℕ
  pub is_retryable : Error → Bool
  pub pause : ℕ → W → Option Error × W

-- `fmt.Errorf("%w: %v", ErrMaxRetriesExceeded, lastErr)`, of the text of the last error, or of nil.
abbrev exceeded : Text → Error
exceeded last = Error.wrapping [] Error.max_retries_exceeded (codes ": " ++ last)

-- How many times `for attempt := 0; attempt <= MaxRetries` goes round.
abbrev pub attempts : ℤ → ℕ
attempts (pos n) = suc n
attempts (negsuc n) = 0

module _ {W : Type 0} (e : ExponentialBackoff W) where
  -- An error of the context comes before what else would follow.
  abbrev unless : Option Error → W → Result (Unit {0}) × W → Result (Unit {0}) × W
  unless none w r = r
  unless (some cause) w r = (err cause, w)

  -- What follows a call, of which the outcome is given, with `n` rounds left.
  unfoldable pub attempt : ℕ → ℕ → Exec W (Unit {0}) → Result (Unit {0}) × W → Result (Unit {0}) × W
  attempt n delay fn (ok u, w) = (ok u, w)
  attempt zero delay fn (err x, w) =
      if e.is_retryable x then (err (exceeded (error_text x)), w) else (err x, w)
  attempt (suc n) delay fn (err x, w) =
      let d = e.next_delay delay w in
      let (stopped, w') = e.pause d w in
      let called = attempt n d fn (fn w') in
      if e.is_retryable x then unless stopped w' called else (err x, w)

  -- `Do`
  unfoldable pub do_retry : Exec W (Unit {0}) → Exec W (Unit {0})
  unfolding attempt
  do_retry fn w = elim (attempts e.max_retries) [
    | zero ↦ (err (exceeded (codes "<nil>")), w)
    | suc n ↦ attempt n e.base_delay fn (fn w)
  ]

  -- The rounds of `RetryWithBackoff`, of which the first has no pause: it calls nothing.
  abbrev checks : (W → Option Error) → ℕ → ℕ → Exec W (Unit {0})
  checks ctx_err zero delay w = (err (exceeded (codes "<nil>")), w)
  checks ctx_err (suc n) delay w =
      let (stopped, w') = e.pause delay w in
      let rest = checks ctx_err n (e.next_delay delay w') w' in
      unless stopped w' (unless (ctx_err w') w' rest)

  unfoldable pub retry_with_backoff : (W → Option Error) → Exec W (Unit {0})
  retry_with_backoff ctx_err w = elim (attempts e.max_retries) [
    | zero ↦ (err (exceeded (codes "<nil>")), w)
    | suc n ↦ unless (ctx_err w) w (checks ctx_err n (e.next_delay e.base_delay w) w)
  ]

module _ {W : Type 0} (e : ExponentialBackoff W) (count : W → ℕ) (fn : Exec W (Unit {0}))
    (counted : (w : W) → count (fn w).1 ≡ suc (count w))
    (quiet : (d : ℕ) (w : W) → count (e.pause d w).1 ≡ count w) where
  attempt-le :
      (n delay : ℕ) (r : Result (Unit {0}) × W) → count (attempt e n delay fn r).1 ≤ n + count r.1
  unfolding attempt
  attempt-le zero delay (ok u, w) = omega arith
  attempt-le (suc n) delay (ok u, w) = omega arith
  attempt-le zero delay (err x, w) = ground arith
  attempt-le (suc n) delay (err x, w) =
      (let d = e.next_delay delay w in
        let w' = (e.pause d w).1 in
        let ih = attempt-le n d (fn w') in let c = counted w' in let q = quiet d w in ground arith)

  do_retry-calls : (w : W) → count (do_retry e fn w).1 ≤ attempts e.max_retries + count w
  unfolding do_retry
  do_retry-calls w = by_attempts (attempts e.max_retries) refl
    where
      by_attempts : (n : ℕ) → attempts e.max_retries ≡ n → count (do_retry e fn w).1 ≤ n + count w
      by_attempts zero same = rw (do_retry, same) (omega arith)
      by_attempts (suc n) same =
          rw (do_retry, same) (omega (arith, attempt-le n e.base_delay (fn w), counted w))

module _ {W : Type 0} (e : ExponentialBackoff W) (ctx_err : W → Option Error) where
  abbrev Fails : Result (Unit {0}) × W → Type 0
  Fails r = (x : Error) × (r.0 ≡ err x)

  unless-Fails :
      (o : Option Error) (w : W) (r : Result (Unit {0}) × W) → Fails r → Fails (unless e o w r)
  unless-Fails none w r h = h
  unless-Fails (some cause) w r h = (cause, refl)

  checks-Fails : (n delay : ℕ) (w : W) → Fails (checks e ctx_err n delay w)
  checks-Fails zero delay w = (exceeded (codes "<nil>"), refl)
  checks-Fails (suc n) delay w =
      unless-Fails (e.pause delay w).0 w' (unless e (ctx_err w') w' rest)
        (unless-Fails (ctx_err w') w' rest (checks-Fails n (e.next_delay delay w') w'))
    where
      w' : W
      w' = (e.pause delay w).1

      rest : Result (Unit {0}) × W
      rest = checks e ctx_err n (e.next_delay delay w') w'

  retry_with_backoff-fails : (w : W) → (x : Error) × ((retry_with_backoff e ctx_err w).0 ≡ err x)
  unfolding retry_with_backoff
  retry_with_backoff-fails w = by_attempts (attempts e.max_retries) refl
    where
      by_attempts : (n : ℕ) → attempts e.max_retries ≡ n → Fails (retry_with_backoff e ctx_err w)
      by_attempts zero same = rw (retry_with_backoff, same) (exceeded (codes "<nil>"), refl)
      by_attempts (suc n) same =
          rw (retry_with_backoff, same)
            (unless-Fails (ctx_err w) w _ (checks-Fails n (e.next_delay e.base_delay w) w))

module _ {W : Type 0} (e : ExponentialBackoff W) (count : W → ℕ) (fn : Exec W (Unit {0}))
    (counted : (w : W) → count (fn w).1 ≡ suc (count w))
    (quiet : (d : ℕ) (w : W) → count (e.pause d w).1 ≡ count w) where
  -- `Do` calls the function at most `MaxRetries + 1` times, where `count` counts the calls and the
  -- pauses call nothing; `RetryWithBackoff` always returns an error, whatever the context does.
  pub do_retry-retry_with_backoff :
      (ctx_err : W → Option Error) (w : W)
      → (count (do_retry e fn w).1 ≤ attempts e.max_retries + count w)
        × ((x : Error) × ((retry_with_backoff e ctx_err w).0 ≡ err x))
  do_retry-retry_with_backoff ctx_err w =
      (do_retry-calls e count fn counted quiet w, retry_with_backoff-fails e ctx_err w)
