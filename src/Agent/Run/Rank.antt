-- ===== src/Agent/Run/Rank.antt =====
-- The invariant of the loop's variables, and the number that falls with each round.
use simple_agent_framework.Prelude.{
  ℕ, suc, ◌+◌, ◌-◌, ◌*◌, ◌<◌, ◌≡◌, Bool, true, false, if◌then◌else◌, Option, none, some, arith,
}
use simple_agent_framework.Planner.{plan_and_solve, Action}
use simple_agent_framework.Agent.LoopDetector.{LoopDetector, ToolCallSig, signature}
use simple_agent_framework.Agent.LoopDetector.Warned.{slack}
use simple_agent_framework.Agent.Loop.State.{Env, Vars, LoopState, ToolExecSnapshot}

abbrev pub is_some {ℓ} : {A : Type ℓ} → Option A → Bool
is_some none = false
is_some (some a) = true

-- How many rounds an iteration takes at most.
abbrev pub per_iteration : ℕ → ℕ
per_iteration threshold = 2 * threshold + 8

-- Rounds for a number of iterations.
unfoldable pub budget : ℕ → ℕ → ℕ
budget threshold left = left * per_iteration threshold

pub budget-suc : (t n : ℕ) → budget t (suc n) ≡ budget t n + per_iteration t
unfolding budget
budget-suc t n = grind arith

module _ {W : Type 0} (env : Env W) where
  -- What a state needs of the other variables.
  abbrev pub Shape : LoopState → Vars → Type 0
  Shape LoopState.interrupt v = is_some v.pending_action ≡ true
  Shape LoopState.executing v = (is_some v.pending_action ≡ true) × (v.eval_escalate ≡ false)
  Shape LoopState.evaluating v = (is_some v.last_exec ≡ true) × (v.eval_escalate ≡ false)
  Shape LoopState.plan_gen v = (env.mode ≡ plan_and_solve) × (v.eval_escalate ≡ false)
  Shape LoopState.plan_review v =
      (env.mode ≡ plan_and_solve) × (is_some env.plan_and_solve ≡ true) × (v.eval_escalate ≡ false)
  Shape _ v = v.eval_escalate ≡ false

  pub record Inv (v : Vars) : Type 0 where
    pub shape : Shape v.state v
    pub threshold : 0 < v.detector.threshold

  abbrev pub sig_of : Action → ToolCallSig
  sig_of act = signature env.hash_params act.tool_name act.tool_input

  abbrev pub slack_of : LoopDetector → Option Action → ℕ
  slack_of d none = 0
  slack_of d (some act) = slack d (sig_of act)

  abbrev pub last_action : Option ToolExecSnapshot → Option Action
  last_action none = none
  last_action (some x) = some x.action

  -- The rounds that are left before the next iteration.
  abbrev pub local : LoopState → Vars → ℕ
  local LoopState.init v = 3
  local LoopState.plan_gen v = 2
  local LoopState.plan_review v = 1
  local LoopState.planning v = 0
  local LoopState.interrupt v = if v.eval_escalate then 1 else 2 * v.detector.threshold + 7
  local LoopState.executing v = 2 * slack_of v.detector v.pending_action + 4
  local LoopState.evaluating v = 2 * slack_of v.detector (last_action v.last_exec) + 5
  local LoopState.completing v = 1
  local LoopState.complete v = 0
  local LoopState.failed v = 0

  abbrev pub rank : Vars → ℕ
  rank v = budget v.detector.threshold (suc env.max_iterations - v.iteration) + local v.state v
