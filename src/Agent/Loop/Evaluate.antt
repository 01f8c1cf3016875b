-- ===== src/Agent/Loop/Evaluate.antt =====
-- agent/loop.go: StateEvaluating.
use simple_agent_framework.Prelude.{true, List, [], ◌∷◌, ◌++◌, length, none, some, if◌then◌else◌}
use simple_agent_framework.Prelude.Text.{Text, codes, decimal, trim_space, is_empty}
use simple_agent_framework.Planner.{react, plan_and_solve, StepResult}
use simple_agent_framework.Evaluator
use simple_agent_framework.Evaluator.{Decision, EvalResult, EvalState}
use simple_agent_framework.Hook.{eval_start, eval_done}
use simple_agent_framework.Agent.Loop.State.{Env, Vars, LoopState, Next, go}
use simple_agent_framework.Agent.Loop.Effects.{
  M, ◌>>=◌, ◌>>◌, pure, on_result, on_option, error_result, emit, fail, build_plan_state,
}

unfoldable pub history_to_eval_steps : List StepResult → List Evaluator.StepResult
history_to_eval_steps [] = []
history_to_eval_steps (s ∷ ss) =
    record {
      tool_name = s.action.tool_name;
      input = s.action.tool_input;
      output = s.output;
      error = s.error;
    }
    ∷ history_to_eval_steps ss

unfoldable pub decision_name : Decision → Text
decision_name Decision.continue = codes "continue"
decision_name Decision.complete = codes "complete"
decision_name Decision.retry = codes "retry"
decision_name Decision.escalate = codes "escalate"
decision_name Decision.replan = codes "replan"
decision_name (Decision.unknown n) = codes "decision_" ++ decimal n

-- The newest output that is not blank.
unfoldable pub last_output_from_history : List StepResult → Text
last_output_from_history [] = []
last_output_from_history (s ∷ ss) =
    let later = last_output_from_history ss in
    if is_empty (trim_space later)
    then if is_empty (trim_space s.output) then [] else s.output
    else later

module _ {W : Type 0} (env : Env W) where
  abbrev to_planning : Vars → M W Next
  to_planning v = pure (go (record v { state = LoopState.planning }))

  complete : Vars → Text → M W Next
  complete v feedback = pure (
      go (record v {
        complete_answer =
            if is_empty (trim_space feedback)
            then last_output_from_history v.history
            else trim_space feedback;
        state = LoopState.completing;
      }))

  retry : Vars → M W Next
  retry v = on_option v.last_exec (to_planning v) λ last. pure (
      go (record v {
        pending_action = some last.action;
        pending_tool_call_id = last.tool_call_id;
        pending_reasoning = [];
        state = LoopState.executing;
      }))

  escalate : Vars → M W Next
  escalate v = pure (
      go (record v {
        eval_escalate = true;
        pending_action = elim v.pending_action [
          | some act ↦ some act
          | none ↦ elim v.last_exec [ none ↦ none | some last ↦ some last.action ]
        ];
        state = LoopState.interrupt;
      }))

  replan : Vars → M W Next
  replan v = elim env.mode [
    | react ↦ to_planning v
    | plan_and_solve ↦ on_option env.plan_and_solve (to_planning v) λ pas. do
      built ← build_plan_state env v.history
      on_result built (λ e. pure (error_result v e))
          λ ps. do
            replanned ← pas.replan ps
            on_result replanned (λ e. pure (error_result v e))
                λ _. pure (go (record v { plan_gen_first = none; state = LoopState.plan_gen }))
  ]

  evaluated : Vars → EvalResult → M W Next
  unfolding complete retry escalate replan
  evaluated v res = elim res.decision [
    | Decision.continue ↦ to_planning v
    | Decision.complete ↦ complete v res.feedback
    | Decision.retry ↦ retry v
    | Decision.escalate ↦ escalate v
    | Decision.replan ↦ replan v
    | Decision.unknown n ↦ to_planning v
  ]

  unfoldable pub evaluating_step : Vars → M W Next
  unfolding evaluated
  evaluating_step v =
      if env.eval_enabled
      then on_option env.evaluator (to_planning v) (λ evaluate. do
        read_back ← env.memory.messages
        on_result read_back (λ e. pure (error_result v e))
            λ ms. do
              emit env (eval_start v.iteration (length v.history))
              let st : EvalState = record {
                messages = ms;
                step_results = history_to_eval_steps v.history;
                iteration = v.iteration;
              }
              judged ← evaluate st
              on_result judged (fail env v (codes "evaluating")) λ res. do
                emit env (
                    eval_done v.iteration (length v.history) (decision_name res.decision)
                      res.feedback)
                evaluated v res)
      else to_planning v
