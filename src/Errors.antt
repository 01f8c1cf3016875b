-- ===== src/Errors.antt =====
-- errors/errors.go, and the results and effects of functions that return an `error`.
use simple_agent_framework.Prelude.{Option, none, some, ◌++◌}
use simple_agent_framework.Prelude.Text.{Text, codes}

-- The sentinels of errors.go, what a context reports, an error with the one that it wraps by
-- `%w` and the texts around it, and every other error by its text.
pub data Error : Type 0 where
  max_iterations_exceeded token_budget_exceeded timeout hitl_denied hitl_timeout : Error
  tool_not_found tool_exec_failed output_validation model_unavailable loop_detected : Error
  canceled deadline_exceeded max_retries_exceeded stream_not_supported : Error
  not_exist : Error
  other : Text → Error
  wrapping : Text → Error → Text → Error

-- `err.Error()`
unfoldable pub error_text : Error → Text
error_text Error.max_iterations_exceeded = codes "max iterations exceeded"
error_text Error.token_budget_exceeded = codes "token budget exceeded"
error_text Error.timeout = codes "operation timed out"
error_text Error.hitl_denied = codes "human denied the action"
error_text Error.hitl_timeout = codes "human response timed out"
error_text Error.tool_not_found = codes "tool not registered"
error_text Error.tool_exec_failed = codes "tool execution failed"
error_text Error.output_validation = codes "output validation failed"
error_text Error.model_unavailable = codes "model provider unavailable"
error_text Error.loop_detected =
    codes "suspected infinite loop: model repeatedly called same tool with identical parameters"
error_text Error.canceled = codes "context canceled"
error_text Error.deadline_exceeded = codes "context deadline exceeded"
error_text Error.max_retries_exceeded = codes "max retries exceeded"
error_text Error.stream_not_supported = codes "stream not supported"
error_text Error.not_exist = codes "file does not exist"
error_text (Error.other t) = t
error_text (Error.wrapping prefix e suffix) = prefix ++ (error_text e ++ suffix)

-- A function that returns `(A, error)`.
pub data Result {ℓ} (A : Type ℓ) : Type ℓ where
  ok : A → Result A
  err : Error → Result A

-- What `ctx.Err()` returns while a function runs.
abbrev pub Context : Type 0
Context = Option Error

-- A method that changes an object, or the world, and may return an error. What was written before
-- an error stays written, so the state comes back beside the error too.
abbrev pub Exec : Type 0 → Type 0 → Type 0
Exec S A = S → Result A × S

module _ {S A B : Type 0} where
  abbrev continue : Result A → (A → Exec S B) → Exec S B
  continue (ok a) f s = f a s
  continue (err e) f s = (err e, s)

  infixl 5 ◌>>=◌
  -- `a, err := m; if err != nil { return err }; ...`
  abbrev pub ◌>>=◌ : Exec S A → (A → Exec S B) → Exec S B
  ◌>>=◌ m f s = let (r, s') = m s in continue r f s'

module _ {S B : Type 0} where
  infixl 5 ◌>>◌
  abbrev pub ◌>>◌ : Exec S (Unit {0}) → Exec S B → Exec S B
  m >> k = m >>= λ _. k

  abbrev pub pure : B → Exec S B
  pure b s = (ok b, s)

  abbrev pub raise : Error → Exec S B
  raise e s = (err e, s)

  -- `if err := ctx.Err(); err != nil { return err }`
  abbrev pub check : Context → Exec S B → Exec S B
  check none m = m
  check (some e) m = raise e
