-- ===== src/Agent/Loop/Execute.antt =====
-- agent/loop.go: StateExecuting.
use simple_agent_framework.Executor.{ExecResult}
use simple_agent_framework.Prelude.{
  ℕ, Bool, true, false, List, [], ◌∷◌, ◌++◌, Option, none, some, if◌then◌else◌,
}
use simple_agent_framework.Prelude.Text.{Text, codes}
use simple_agent_framework.Errors.{Error, error_text}
use simple_agent_framework.Model.{Role, ChatMessage}
use simple_agent_framework.Planner.{react, plan_and_solve, Action, PlanStep, running}
use simple_agent_framework.Memory.Compressor.{
  truncate_tool_result, prune_consecutive_failures, compact_stale_tool_results,
}
use simple_agent_framework.Hook.{tool_call_start, tool_call_done}
use simple_agent_framework.Agent.LoopDetector.{
  LoopDetector, LoopStatus, warning, terminate, record_sig, signature, inject_loop_warning,
}
use simple_agent_framework.Agent.Loop.State.{
  Env, Vars, LoopState, Next, go, stop, crash, PlanAndSolve,
}
use simple_agent_framework.Agent.Loop.Effects.{
  M, ◌>>=◌, ◌>>◌, pure, read, change, ignore, on_result, on_option, emit, fail, remember,
  maybe_save_checkpoint,
}

-- The first step that is running.
running_step : List PlanStep → Option PlanStep
running_step [] = none
running_step (s ∷ ss) = elim s.status [ running ↦ some s | _ ↦ running_step ss ]

unfoldable pub running_plan_step : {W : Type 0} → PlanAndSolve W → W → Option PlanStep
unfolding running_step
running_plan_step pas w = elim (pas.current_plan w) [
  | none ↦ none
  | some ap ↦ running_step ap.steps
]

-- `execRes.Output`, or the text of `execRes.Error`.
abbrev result_text : ExecResult → Text
result_text res = elim res.error [ none ↦ res.output | some e ↦ error_text e ]

abbrev with_warning : LoopStatus → Text → Text → ℕ → Text
with_warning warning out tool_name threshold = inject_loop_warning out tool_name threshold
with_warning _ out tool_name threshold = out

unfoldable pub tool_message : Text → Text → Text → ChatMessage
tool_message id tool_name out = record {
  role = Role.tool;
  content = out;
  tool_calls = [];
  tool_call_id = id;
  name = tool_name;
}

-- `evalOn`
abbrev pub eval_on : {W : Type 0} → Env W → Bool
eval_on env =
    if env.eval_enabled then elim env.evaluator [ none ↦ false | some _ ↦ true ] else false

-- The variables behind an execution.
unfoldable pub executed : {W : Type 0} → Env W → Vars → Action → ExecResult → LoopDetector → Vars
executed env v act res d = record v {
  detector = d;
  last_exec = some (record { res = res; tool_call_id = v.pending_tool_call_id; action = act });
  history = v.history ++ record { action = act; output = res.output; error = res.error } ∷ [];
  pending_action = none;
  pending_tool_call_id = [];
  state = if eval_on env then LoopState.evaluating else LoopState.planning;
}

module _ {W : Type 0} (env : Env W) where
  -- The memory is read, pruned, compacted and written anew.
  tidy_memory : M W (Unit {0})
  tidy_memory = do
    read_back ← env.memory.messages
    on_result read_back (λ _. pure tt)
        λ ms. do
          ignore env.memory.clear
          remember env (
              compact_stale_tool_results (prune_consecutive_failures ms)
                env.recent_tool_result_tokens)

  mark_plan_step : ExecResult → M W (Unit {0})
  mark_plan_step res = elim env.mode [
    | react ↦ pure tt
    | plan_and_solve ↦ on_option env.plan_and_solve (pure tt) λ pas. do
      found ← read (running_plan_step pas)
      on_option found (pure tt) λ rs.
          on_option res.error (change (pas.mark_step_done rs.step_id res.output))
            (λ e. change (pas.mark_step_failed rs.step_id (some e)))
  ]

  unfoldable pub run_tool : Vars → Action → LoopStatus → LoopDetector → M W Next
  unfolding tidy_memory mark_plan_step
  run_tool v act status d = do
    let recorded : Vars = record v { detector = d }
    emit env (tool_call_start act.tool_name act.tool_input)
    answered ← env.execute act
    on_result answered (fail env recorded (codes "executing")) λ res. do
      emit env (tool_call_done act.tool_name res.output res.error)
      out ←
          truncate_tool_result (result_text res) env.tool_result_max_len env.content_store
            v.pending_tool_call_id
      remember env (
          tool_message v.pending_tool_call_id act.tool_name
            (with_warning status out act.tool_name env.loop_detection_threshold)
          ∷ [])
      tidy_memory
      mark_plan_step res
      pure (go (executed env v act res d))

  unfoldable pub record_call : Vars → Action → LoopStatus → LoopDetector → M W Next
  record_call v act terminate d =
      fail env (record v { detector = d }) (codes "executing") Error.loop_detected
  record_call v act status d = run_tool v act status d

  -- The snapshot reads through the pending action before the action is tested for nil.
  unfoldable pub executing_step : Vars → M W Next
  executing_step v = on_option v.pending_action (pure (stop crash v.detector)) λ act. do
    maybe_save_checkpoint env (record {
      plan = some (record { action = act; reasoning = v.pending_reasoning });
      step_results = v.history;
      iteration = v.iteration;
      state = v.state;
    })
    let (status, d) = record_sig v.detector (signature env.hash_params act.tool_name act.tool_input)
    record_call v act status d
