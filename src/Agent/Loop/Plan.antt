-- ===== src/Agent/Loop/Plan.antt =====
-- agent/loop.go: StateInit, StatePlanGen and StatePlanReview.
use simple_agent_framework.Prelude.{
  suc, Bool, false, List, [], ◌∷◌, ◌++◌, Option, none, some, if◌then◌else◌,
}
use simple_agent_framework.Prelude.Int.{ℤ, pos, negsuc}
use simple_agent_framework.Prelude.Text.{Text, codes, decimal, trim_space}
use simple_agent_framework.Errors.{Error}
use simple_agent_framework.Model.{Role, message}
use simple_agent_framework.Planner.{
  react, plan_and_solve, ActionType, tool_call, final_answer, ask_human, PlanStep,
}
use simple_agent_framework.Interrupter.{Interrupter, InterruptEvent, after_plan, HumanResponse}
use simple_agent_framework.Agent.Loop.State.{
  Env, Vars, LoopState, Next, go, stop, abort, crash, PlanAndSolve,
}
use simple_agent_framework.Agent.Loop.Effects.{
  M, ◌>>=◌, ◌>>◌, pure, read, on_result, on_option, error_result, fail, remember, build_plan_state,
}

-- `hr != nil && hr.Approved`, and the message of a response that may be nil.
abbrev pub is_approved : Option HumanResponse → Bool
is_approved none = false
is_approved (some hr) = hr.approved

abbrev pub response_message : Option HumanResponse → Text
response_message none = []
response_message (some hr) = hr.message

-- `%d` of an integer, and `%v` of an action type.
abbrev decimal_ℤ : ℤ → Text
decimal_ℤ (pos n) = decimal n
decimal_ℤ (negsuc n) = codes "-" ++ decimal (suc n)

abbrev type_number : ActionType → Text
type_number tool_call = codes "0"
type_number final_answer = codes "1"
type_number ask_human = codes "2"
type_number (ActionType.unknown n) = decimal n

digest_lines : List PlanStep → Text
digest_lines [] = []
digest_lines (s ∷ ss) =
    codes "- step "
    ++ (decimal_ℤ s.step_id
        ++ (codes ": "
            ++ (s.description
                ++ (codes " ("
                    ++ (type_number s.action.kind ++ (codes ")\n" ++ digest_lines ss))))))

unfoldable pub plan_digest : {W : Type 0} → Option (PlanAndSolve W) → W → Text
unfolding digest_lines
plan_digest none w = []
plan_digest (some pas) w = elim (pas.current_plan w) [
  | none ↦ []
  | some ap ↦ trim_space (digest_lines ap.steps)
]

unfoldable pub init_step : {W : Type 0} → Env W → Vars → M W Next
init_step env v = pure (
    go (record v {
      state = elim env.mode [ plan_and_solve ↦ LoopState.plan_gen | react ↦ LoopState.planning ];
    }))

module _ {W : Type 0} (env : Env W) where
  unfoldable pub plan_gen_step : Vars → M W Next
  plan_gen_step v =
      on_option env.plan_and_solve
        (fail env v (codes "plan_gen")
          (Error.other (codes "agent: plan-and-solve planner unavailable")))
        λ pas. do
          built ← build_plan_state env v.history
          on_result built (fail env v (codes "plan_gen")) λ ps. do
            current ← read pas.current_plan
            on_option current
                (do
                  planned ← pas.plan ps
                  on_result planned (fail env v (codes "plan_gen")) λ res.
                      pure (
                        go (record v { plan_gen_first = some res; state = LoopState.plan_review })))
                (λ _. pure (go (record v { state = LoopState.plan_review })))

  -- `if ctx.Err() != nil { return nil, ctx.Err() }` ahead of what a failed wait does else.
  unfoldable pub wait_failed : Vars → M W Next → M W Next
  wait_failed v otherwise = do
    done ← read env.ctx_err
    on_option done otherwise (λ e. pure (stop (abort e) v.detector))

  unfoldable pub plan_rejected : Vars → Option HumanResponse → M W Next
  plan_rejected v hr = do
    remember env (message Role.user (codes "Plan review rejected: " ++ response_message hr) ∷ [])
    built ← build_plan_state env v.history
    on_result built (λ e. pure (error_result v e))
        λ ps. on_option env.plan_and_solve (pure (stop crash v.detector)) λ pas. do
          replanned ← pas.replan ps
          on_result replanned (λ e. pure (error_result v e))
              λ _. pure (go (record v { state = LoopState.plan_review }))

  unfoldable pub plan_approval : Vars → Interrupter W → InterruptEvent → M W Next
  plan_approval v i evt = do
    waited ← i.wait_for_human evt
    on_result waited (λ e. wait_failed v (fail env v (codes "plan_review") e))
        λ hr.
          if is_approved hr
          then pure (go (record v { state = LoopState.planning }))
          else plan_rejected v hr

  unfoldable pub plan_review_step : Vars → M W Next
  plan_review_step v =
      on_option env.interrupter (pure (go (record v { state = LoopState.planning }))) λ i. do
        digest ← read (plan_digest env.plan_and_solve)
        let evt : InterruptEvent = record {
          kind = after_plan;
          action = record {
            kind = final_answer;
            tool_name = [];
            tool_input = none;
            answer = digest;
          };
        }
        should ← i.should_interrupt evt
        on_result should (fail env v (codes "plan_review")) λ b.
            if b then plan_approval v i evt else pure (go (record v { state = LoopState.planning }))
