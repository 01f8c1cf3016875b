-- ===== src/Agent/Run/Elsewhere.antt =====
-- The handlers of agent/loop.go that never lead to the execution of an action.
use simple_agent_framework.Prelude.{◌≡◌, Option, arith}
use simple_agent_framework.Planner.{Planner}
use simple_agent_framework.Interrupter.{Interrupter, InterruptEvent, HumanResponse}
use simple_agent_framework.Agent.Loop.State.{Env, Vars, LoopState, Next}
use simple_agent_framework.Agent.Loop.Effects.{effects}
use simple_agent_framework.Agent.Loop.Plan.{
  plan_gen_step, plan_review_step, plan_approval, plan_rejected, is_approved,
}
use simple_agent_framework.Agent.Loop.Planning.{planning_step, next_plan}
use simple_agent_framework.Agent.Loop.Execute.{executing_step, record_call, run_tool, executed}
use simple_agent_framework.Agent.Loop.Complete.{completing_step}
use simple_agent_framework.Agent.Run.Always.{
  Always, Always-pure, Always-bind, Always-if, Always-fail, Always-on_result, Always-on_option,
  Good,
}
use simple_agent_framework.Agent.Run.Rank.{Inv}
use simple_agent_framework.Agent.Run.Asking.{wait_failed-Good}

module _ {W : Type 0} (env : Env W) where
  -- The handlers that never lead to the execution of an action.
  abbrev pub Elsewhere : Next → Type 0
  Elsewhere = Good (λ v'. v'.state ≡ LoopState.executing → ⊥)

  pub planning-Elsewhere :
      (plan : Planner W) (v : Vars) → Always Elsewhere (planning_step env plan v)
  unfolding planning_step next_plan effects
  planning-Elsewhere plan v = record { at = λ w. ground arith }

  pub plan_rejected-Elsewhere :
      (v : Vars) (hr : Option HumanResponse)
      → Inv env v
      → v.state ≡ LoopState.plan_review
      → Always Elsewhere (plan_rejected env v hr)
  unfolding plan_rejected effects
  plan_rejected-Elsewhere v hr i e = record { at = λ w. ground arith }

  pub plan_approval-Elsewhere :
      (v : Vars) (i : Interrupter W) (evt : InterruptEvent)
      → Inv env v
      → v.state ≡ LoopState.plan_review
      → Always Elsewhere (plan_approval env v i evt)
  unfolding plan_approval
  plan_approval-Elsewhere v i evt inv e = Always-bind _ _ λ waited.
      Always-on_result waited _ _ (λ x. wait_failed-Good env v _ (Always-fail env v _ x tt))
        λ hr.
          Always-if (is_approved hr) _ _ (λ t. Always-pure _ (λ x. absurd (ground arith)))
            (λ t. plan_rejected-Elsewhere v hr inv e)

  pub plan_review-Elsewhere :
      (v : Vars)
      → Inv env v
      → v.state ≡ LoopState.plan_review
      → Always Elsewhere (plan_review_step env v)
  unfolding plan_review_step
  plan_review-Elsewhere v inv e =
      Always-on_option env.interrupter _ _ (λ n. Always-pure _ (λ x. absurd (ground arith)))
        λ i found. Always-bind _ _ λ digest. Always-bind _ _ λ should.
          Always-on_result should _ _ (λ x. Always-fail env v _ x tt)
            λ b.
              Always-if b _ _ (λ t. plan_approval-Elsewhere v i _ inv e)
                (λ t. Always-pure _ (λ x. absurd (ground arith)))

  pub executing-Elsewhere :
      (v : Vars)
      → Inv env v
      → v.state ≡ LoopState.executing
      → Always Elsewhere (executing_step env v)
  unfolding executing_step record_call run_tool executed effects
  executing-Elsewhere v i e = record { at = λ w. ground arith }

  pub plan_gen-Elsewhere : (v : Vars) → Always Elsewhere (plan_gen_step env v)
  unfolding plan_gen_step effects
  plan_gen-Elsewhere v = record { at = λ w. ground arith }

  pub completing-Elsewhere : (v : Vars) → Always Elsewhere (completing_step env v)
  unfolding completing_step effects
  completing-Elsewhere v = record { at = λ w. ground arith }
