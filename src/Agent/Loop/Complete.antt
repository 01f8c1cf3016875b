-- ===== src/Agent/Loop/Complete.antt =====
-- agent/loop.go: StateCompleting.
use simple_agent_framework.Prelude.{ℕ, zero, suc, [], ◌∷◌, ◌++◌, none, if◌then◌else◌}
use simple_agent_framework.Prelude.Text.{Text, codes, trim_space, is_empty}
use simple_agent_framework.Errors.{Error, error_text}
use simple_agent_framework.Model.{Role, message}
use simple_agent_framework.Hook.{loop_complete}
use simple_agent_framework.Agent.Loop.State.{Env, Vars, LoopState, Next, go, stop, result}
use simple_agent_framework.Agent.Loop.Effects.{
  M, ◌>>=◌, ◌>>◌, pure, on_result, on_option, error_result, emit, fail, remember,
}

module _ {W : Type 0} (env : Env W) where
  finish : Vars → M W Next
  finish v = do
    emit env loop_complete
    read_back ← env.memory.messages
    on_result read_back (λ e. pure (error_result v e))
        λ ms. pure (
          stop (result (record { answer = v.complete_answer; messages = ms; error = none }))
            v.detector)

  -- The answer did not fit the schema: `n` more answers may be asked for.
  invalid : Vars → ℕ → Text → Error → M W Next
  invalid v zero formatted e = fail env v (codes "completing") Error.output_validation
  invalid v (suc n) formatted e = do
    let note =
        codes "Output validation failed (" ++ (error_text e ++ codes "). Produce a valid answer.")
    remember env (message Role.user (if is_empty formatted then note else formatted) ∷ [])
    pure (go (record v { validate_left = n; state = LoopState.planning }))

  unfoldable pub completing_step : Vars → M W Next
  unfolding finish invalid
  completing_step v = do
    if is_empty (trim_space v.complete_answer)
        then pure tt
        else remember env (message Role.assistant v.complete_answer ∷ [])
    on_option env.validate_output (finish v) λ validate.
        on_option (validate v.complete_answer) (finish v)
          λ failure. do let (formatted, e) = failure; invalid v v.validate_left formatted e
