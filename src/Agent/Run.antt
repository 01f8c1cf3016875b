-- ===== src/Agent/Run.antt =====
-- agent/loop.go: the rounds of `runLoop`.
pub mod Always
pub mod Rank
pub mod Asking
pub mod Rounds
pub mod Safety
pub mod Elsewhere
pub mod Consent
pub mod Approved
pub mod Termination
use simple_agent_framework.Prelude.{ℕ, zero, suc, false, List, [], Option, none, some}
use simple_agent_framework.Prelude.Text.{codes}
use simple_agent_framework.Errors.{Error}
use simple_agent_framework.Planner.{Planner, PlanResult}
use simple_agent_framework.Hook.{error}
use simple_agent_framework.Agent.LoopDetector.{LoopDetector}
use simple_agent_framework.Agent.Loop.State.{
  Env, Vars, LoopState, Next, go, stop, Reply, result, abort,
}
use simple_agent_framework.Agent.Loop.Effects.{
  M, ◌>>=◌, ◌>>◌, pure, read, on_option, emit, maybe_save_checkpoint,
}
use simple_agent_framework.Agent.Loop.Plan.{init_step, plan_gen_step, plan_review_step}
use simple_agent_framework.Agent.Loop.Planning.{planning_step}
use simple_agent_framework.Agent.Loop.Interrupt.{interrupt_step}
use simple_agent_framework.Agent.Loop.Execute.{executing_step}
use simple_agent_framework.Agent.Loop.Evaluate.{evaluating_step}
use simple_agent_framework.Agent.Loop.Complete.{completing_step}

-- The variables when the loop starts; the retries are `autoRetry`.
unfoldable pub start : LoopDetector → ℕ → Vars
start detector auto_retry = record {
  state = LoopState.init;
  iteration = 0;
  history = [];
  pending_action = none;
  pending_reasoning = [];
  pending_tool_call_id = [];
  plan_gen_first = none;
  complete_answer = [];
  last_exec = none;
  eval_escalate = false;
  validate_left = auto_retry;
  detector = detector;
}

-- What follows a round.
unfoldable pub follow :
    {W : Type 0}
    → (Vars → M W (Option (Reply × LoopDetector)))
    → Next
    → M W (Option (Reply × LoopDetector))
follow again (go v) w = again v w
follow again (stop r d) w = (some (r, d), w)

module _ {W : Type 0} (env : Env W) where
  -- `switch state`
  unfoldable pub dispatch : Planner W → LoopState → Vars → M W Next
  dispatch plan LoopState.init v = init_step env v
  dispatch plan LoopState.plan_gen v = plan_gen_step env v
  dispatch plan LoopState.plan_review v = plan_review_step env v
  dispatch plan LoopState.planning v = planning_step env plan v
  dispatch plan LoopState.interrupt v = interrupt_step env v
  dispatch plan LoopState.executing v = executing_step env v
  dispatch plan LoopState.evaluating v = evaluating_step env v
  dispatch plan LoopState.completing v = completing_step env v
  dispatch plan LoopState.complete v =
      pure (stop (result (record { answer = []; messages = []; error = none })) v.detector)
  dispatch plan LoopState.failed v =
      pure (stop (result (record { answer = []; messages = []; error = none })) v.detector)

  abbrev pending_plan : Vars → Option PlanResult
  pending_plan v = elim v.pending_action [
    | none ↦ none
    | some act ↦ some (record { action = act; reasoning = v.pending_reasoning })
  ]

  -- One round: the context first, then the state's handler.
  unfoldable pub round : Planner W → Vars → M W Next
  round plan v = do
    done ← read env.ctx_err
    on_option done (dispatch plan v.state v) λ e. do
      maybe_save_checkpoint env (record {
        plan = pending_plan v;
        step_results = v.history;
        iteration = v.iteration;
        state = v.state;
      })
      pure (stop (abort e) v.detector)

  -- The `for` loop; `none` where the rounds run out.
  unfoldable pub rounds : Planner W → ℕ → Vars → M W (Option (Reply × LoopDetector))
  rounds plan zero v w = (none, w)
  rounds plan (suc n) v w = let (next, w') = round plan v w in follow (rounds plan n) next w'

  -- `runLoop`, of a given number of rounds.
  unfoldable pub run_loop : LoopDetector → ℕ → ℕ → M W (Option (Reply × LoopDetector))
  run_loop detector auto_retry n =
      on_option env.planner
        (do
          emit env (error no_planner (codes "init"))
          pure (
              some (
                result (record { answer = []; messages = []; error = some no_planner }),
                detector,
              )))
        λ plan. rounds plan n (start detector auto_retry)
    where
      no_planner : Error
      no_planner = Error.other (codes "agent: planner is nil (set model or WithPlanner)")
