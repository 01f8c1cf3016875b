-- ===== src/Model/Retry/Retryable.antt =====
-- model/retry.go: which errors are worth another call.
use simple_agent_framework.Prelude.{
  ℕ, ◌==◌, ltb, leb, ◌||◌, ◌&&◌, not, if◌then◌else◌, Bool, false, ◌++◌, Option, none, some,
}
use simple_agent_framework.Prelude.Text.{Text, codes, decimal}

-- `HTTPStatusError`
pub record HttpStatusError : Type 0 where
  pub status_code : ℕ
  pub message : Text

abbrev status_text : HttpStatusError → Text
status_text e = codes "http status " ++ (decimal e.status_code ++ (codes ": " ++ e.message))

abbrev too_many : HttpStatusError → Bool
too_many e = e.status_code == 429

-- `HTTPStatusError.IsRetryable`
abbrev worth_retry : HttpStatusError → Bool
worth_retry e = too_many e || (leb 500 e.status_code && ltb e.status_code 600)

-- `GetRetryAfter`, in nanoseconds.
abbrev retry_after : HttpStatusError → ℕ
retry_after e = if too_many e then 1000000000 else 0

-- What `errors.As` and `errors.Is` find along the causes of an error: what the first
-- `RetryableError` answers, the first `HTTPStatusError`, and whether a context has ended.
pub record Causes : Type 0 where
  pub retryable : Option Bool
  pub http : Option HttpStatusError
  pub context_ended : Bool

abbrev is_too_many : Option HttpStatusError → Bool
is_too_many none = false
is_too_many (some e) = too_many e

-- `isRetryable` of an error that is not nil.
unfoldable pub is_retryable : Causes → Bool
is_retryable c = elim c.retryable [
  | some answer ↦ answer
  | none ↦ is_too_many c.http || not c.context_ended
]

-- `IsRateLimitError`
abbrev is_rate_limit_error : Causes → Bool
is_rate_limit_error c = is_too_many c.http
