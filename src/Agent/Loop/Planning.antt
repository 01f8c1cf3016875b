-- ===== src/Agent/Loop/Planning.antt =====
-- agent/loop.go: StatePlanning.
use simple_agent_framework.Prelude.{suc, ltb, ◌++◌, length, drop, none, some, if◌then◌else◌}
use simple_agent_framework.Prelude.Text.{Text, codes, trim_space, is_empty}
use simple_agent_framework.Errors.{Error, Exec, ok, err}
use simple_agent_framework.Planner.{
  Planner, react, plan_and_solve, Action, ActionType, tool_call, final_answer, ask_human,
  PlanResult, PlanState,
}
use simple_agent_framework.Memory.Compressor.{should_compress, compress}
use simple_agent_framework.Hook.{plan_start, plan_done}
use simple_agent_framework.Agent.Loop.State.{Env, Vars, LoopState, Next, go}
use simple_agent_framework.Agent.Loop.Effects.{
  M, ◌>>=◌, ◌>>◌, pure, ignore, on_result, on_option, error_result, emit, fail, remember,
  build_plan_state,
}
use simple_agent_framework.Agent.Loop.Stream.{stream_react_plan}

unfoldable pub summarize_plan_action : Action → Text
summarize_plan_action act = elim act.kind [
  | tool_call ↦ codes "tool_call:" ++ trim_space act.tool_name
  | ask_human ↦
      let answer = trim_space act.answer in
      if is_empty answer then codes "ask_human" else codes "ask_human:" ++ answer
  | final_answer ↦ codes "final_answer"
  | ActionType.unknown n ↦ codes "unknown"
]

module _ {W : Type 0} (env : Env W) where
  -- A failed compression is passed over, and leaves the memory alone.
  compressed : Vars → PlanState → Exec W PlanState
  compressed v ps = on_option env.compressor (pure (ok ps)) λ c.
      on_option env.stream (pure (ok ps)) λ _.
        if should_compress c ps.messages env.model_max_tokens
        then (do
          shrunk ← compress c ps.messages
          on_result shrunk (λ _. pure (ok ps))
              λ messages. do
                ignore env.memory.clear
                if ltb 1 (length messages) then remember env (drop 1 messages) else pure tt
                build_plan_state env v.history)
        else pure (ok ps)

  -- A stream that the model does not support is replaced by a plain call.
  request_plan : Planner W → PlanState → Exec W PlanResult
  request_plan plan ps = elim env.mode [
    | plan_and_solve ↦ plan ps
    | react ↦
        if env.stream_on
        then on_option env.stream (plan ps) (λ stream. do
          streamed ← stream_react_plan env stream ps
          elim streamed [ err Error.stream_not_supported ↦ plan ps | other ↦ pure other ])
        else plan ps
  ]

  decide : Vars → PlanResult → M W Next
  decide v res =
      let chosen : Vars = record v {
        pending_reasoning = res.reasoning;
        pending_action = some res.action;
      } in
      elim res.action.kind [
        | tool_call ↦ pure (go (record chosen { state = LoopState.interrupt }))
        | ask_human ↦ pure (go (record chosen { state = LoopState.interrupt }))
        | final_answer ↦ pure (
            go (record chosen {
              complete_answer = trim_space res.action.answer;
              state = LoopState.completing;
            }))
        | ActionType.unknown n ↦
            fail env chosen (codes "planning") (Error.other (codes "agent: unknown action type"))
      ]

  unfoldable pub next_plan : Planner W → Vars → PlanState → M W Next
  unfolding request_plan decide
  next_plan plan v ps =
      on_option v.plan_gen_first
        (do
          emit env (plan_start v.iteration)
          planned ← request_plan plan ps
          on_result planned (fail env v (codes "planning")) λ res. do
            emit env (plan_done v.iteration res.reasoning (summarize_plan_action res.action))
            decide v res)
        (λ res. decide (record v { plan_gen_first = none }) res)

  unfoldable pub planning_step : Planner W → Vars → M W Next
  unfolding compressed next_plan
  planning_step plan v =
      let counted : Vars = record v { iteration = suc v.iteration } in
      if ltb env.max_iterations (suc v.iteration)
      then pure (error_result v Error.max_iterations_exceeded)
      else (do
        built ← build_plan_state env v.history
        on_result built (fail env v (codes "planning")) λ ps. do
          fitted ← compressed counted ps
          on_result fitted (fail env v (codes "planning")) λ ps'. next_plan plan counted ps')
