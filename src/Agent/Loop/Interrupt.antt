-- ===== src/Agent/Loop/Interrupt.antt =====
-- agent/loop.go: StateInterrupt.
use simple_agent_framework.Prelude.{
  ℕ, Bool, true, false, List, [], ◌∷◌, ◌++◌, Option, none, some, if◌then◌else◌,
}
use simple_agent_framework.Prelude.Text.{Text, codes, decimal, trim_space}
use simple_agent_framework.Errors.{Error}
use simple_agent_framework.Model.{Role, message, ChatMessage}
use simple_agent_framework.Model.Value.{or_empty}
use simple_agent_framework.Planner.{Action, ActionType, tool_call, ask_human}
use simple_agent_framework.Interrupter.{
  InterruptEvent, before_tool_call, on_escalate, HumanResponse,
}
use simple_agent_framework.Hook.{error}
use simple_agent_framework.Agent.Loop.State.{
  Env, Vars, LoopState, Next, go, stop, crash, AgentSnapshot,
}
use simple_agent_framework.Agent.Loop.Effects.{
  M, ◌>>=◌, ◌>>◌, pure, on_result, on_option, error_result, emit, fail, remember,
  maybe_save_checkpoint,
}
use simple_agent_framework.Agent.Loop.Plan.{is_approved, response_message, wait_failed}

abbrev pub is_ask_human : ActionType → Bool
is_ask_human ask_human = true
is_ask_human _ = false

-- The two messages that a question leaves in the memory.
abbrev question : Action → Text → List ChatMessage
question act answer = message Role.assistant (trim_space act.answer) ∷ message Role.user answer ∷ []

-- `hr.ModifiedInput` takes the place of a tool call's input.
unfoldable pub revised : Action → Option HumanResponse → Action
revised act none = act
revised act (some hr) = elim hr.modified_input [
  | none ↦ act
  | some fs ↦ elim act.kind [ tool_call ↦ record act { tool_input = some fs } | _ ↦ act ]
]

-- The time is in the identifier of the call.
unfoldable pub call_id : ℕ → ℕ → Text
call_id iteration nanos = codes "tc_" ++ (decimal iteration ++ (codes "_" ++ decimal nanos))

-- The assistant's message that asks for a tool call.
unfoldable pub call_message : Text → Text → Action → ChatMessage
call_message reasoning id act = record {
  role = Role.assistant;
  content = reasoning;
  tool_calls = record { id = id; name = act.tool_name; arguments = or_empty act.tool_input } ∷ [];
  tool_call_id = [];
  name = [];
}

abbrev snapshot : Vars → Action → AgentSnapshot
snapshot v act = record {
  plan = some (record { action = act; reasoning = v.pending_reasoning });
  step_results = v.history;
  iteration = v.iteration;
  state = v.state;
}

module _ {W : Type 0} (env : Env W) where
  replan_next : Vars → M W Next
  replan_next v = pure (go (record v { state = LoopState.planning }))

  -- Behind the checks: the call is written down and handed on to be executed.
  unfoldable pub hand_on : Vars → Action → M W Next
  hand_on v act = do
    nanos ← env.now
    let id = call_id v.iteration nanos
    remember env (call_message v.pending_reasoning id act ∷ [])
    pure (
        go (record v {
          pending_action = some act;
          pending_tool_call_id = id;
          state = LoopState.executing;
        }))

  -- The end of an escalation: the loop plans anew.
  resume : Vars → M W Next
  resume v =
      pure
        (go (record v { eval_escalate = false; pending_action = none; state = LoopState.planning }))

  escalation_answer : Vars → Option HumanResponse → M W Next
  unfolding resume
  escalation_answer v hr = if is_approved hr then resume v else (do
    remember env (message Role.user (codes "Escalation review: " ++ response_message hr) ∷ [])
    resume v)

  unfoldable pub escalation : Vars → Action → M W Next
  unfolding escalation_answer wait_failed
  escalation v act = on_option env.interrupter (resume v) λ i. do
    let evt : InterruptEvent = record { kind = on_escalate; action = act }
    should ← i.should_interrupt evt
    on_result should (λ e. pure (error_result v e))
        λ b.
          if b
          then (do
            waited ← i.wait_for_human evt
            on_result waited (λ _. wait_failed env v (pure (error_result v Error.hitl_timeout)))
                (escalation_answer v))
          else resume v

  -- What follows a human's answer to the question or the call `act`.
  unfoldable pub human_answer : Vars → Action → Option HumanResponse → M W Next
  unfolding replan_next
  human_answer v act hr =
      if is_approved hr
      then (let act' = revised act hr in
          if is_ask_human act.kind
          then (do
            remember env (question act' (response_message hr))
            replan_next (record v { pending_action = some act' }))
          else hand_on v act')
      else (do
        remember env
            (message Role.user (codes "Action denied or revised: " ++ response_message hr) ∷ [])
        replan_next v)

  -- No human is asked: a question is answered by a note, a call is handed on.
  unfoldable pub unasked : Vars → Action → Text → M W Next
  unfolding replan_next
  unasked v act note =
      if is_ask_human act.kind
      then (do remember env (question act note); replan_next v)
      else hand_on v act

  unfoldable pub approval : Vars → Action → M W Next
  approval v act =
      on_option env.interrupter
        (unasked v act (codes "(no human interrupter; provide answer in next turn if needed)"))
        λ i. do
          let evt : InterruptEvent = record {
            kind = if is_ask_human act.kind then on_escalate else before_tool_call;
            action = act;
          }
          should ← i.should_interrupt evt
          on_result should (fail env v (codes "interrupt")) λ b.
              if b
              then (do
                waited ← i.wait_for_human evt
                on_result waited
                    (λ e. wait_failed env v (do
                      emit env (error e (codes "interrupt"))
                      pure (error_result v Error.hitl_timeout)))
                    (human_answer v act))
              else unasked v act (codes "(interrupt skipped by interrupter)")

  -- The snapshot reads through the pending action before the action is tested for nil.
  unfoldable pub interrupt_step : Vars → M W Next
  interrupt_step v = on_option v.pending_action (pure (stop crash v.detector)) λ act. do
    maybe_save_checkpoint env (snapshot v act)
    if v.eval_escalate then escalation v act else approval v act
