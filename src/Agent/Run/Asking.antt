-- ===== src/Agent/Run/Asking.antt =====
-- The handlers of agent/loop.go that ask a human: the invariant is kept and the rank falls.
use simple_agent_framework.Prelude.{◌<◌, ◌≡◌, true, false, Option, arith}
use simple_agent_framework.Planner.{Action}
use simple_agent_framework.Agent.LoopDetector.Warned.{slack-le}
use simple_agent_framework.Agent.Loop.State.{Env, Vars, LoopState, Next}
use simple_agent_framework.Agent.Loop.Effects.{M, effects}
use simple_agent_framework.Agent.Loop.Plan.{
  plan_review_step, plan_approval, plan_rejected, is_approved, wait_failed,
}
use simple_agent_framework.Agent.Loop.Interrupt.{
  interrupt_step, escalation, approval, human_answer, unasked, hand_on, revised, is_ask_human,
}
use simple_agent_framework.Interrupter.{Interrupter, InterruptEvent, HumanResponse}
use simple_agent_framework.Prelude.Text.{Text}
use simple_agent_framework.Agent.Run.Always.{
  Always, Always-pure, Always-bind, Always-then, Always-if, Always-fail, Always-on_result,
  Always-on_option, Good,
}
use simple_agent_framework.Agent.Run.Rank.{Inv, rank, sig_of}

module _ {W : Type 0} (env : Env W) where
  -- The invariant is kept and the rank falls.
  abbrev pub Falls : Vars → Vars → Type 0
  Falls v v' = Inv env v' × (rank env v' < rank env v)

  pub wait_failed-Good :
      {P : Vars → Type 0} (v : Vars) (otherwise : M W Next)
      → Always (Good P) otherwise
      → Always (Good P) (wait_failed env v otherwise)
  unfolding wait_failed
  wait_failed-Good v otherwise h =
      Always-bind _ _ λ d. Always-on_option d _ _ (λ n. h) (λ e s. Always-pure _ tt)

  escalation-Falls :
      (v : Vars) (act : Action)
      → Inv env v
      → v.state ≡ LoopState.interrupt
      → v.eval_escalate ≡ true
      → Always (Good (Falls v)) (escalation env v act)
  unfolding escalation effects
  escalation-Falls v act i e t = record { at = λ w. ground arith }

  module _ (v : Vars) (i : Inv env v) (e : v.state ≡ LoopState.interrupt)
      (f : v.eval_escalate ≡ false) where
    hand_on-Falls : (act : Action) → Always (Good (Falls v)) (hand_on env v act)
    unfolding hand_on effects
    hand_on-Falls act = record { at = λ w. ground (arith, slack-le v.detector (sig_of env act)) }

    unasked-Falls : (act : Action) (note : Text) → Always (Good (Falls v)) (unasked env v act note)
    unfolding unasked
    unasked-Falls act note =
        Always-if (is_ask_human act.kind) _ _ (λ t. Always-then _ _ (Always-pure _ (ground arith)))
          (λ t. hand_on-Falls act)

    human_answer-Falls :
        (act : Action) (hr : Option HumanResponse)
        → Always (Good (Falls v)) (human_answer env v act hr)
    unfolding human_answer
    human_answer-Falls act hr =
        Always-if (is_approved hr) _ _
          (λ t.
            Always-if (is_ask_human act.kind) _ _
              (λ q. Always-then _ _ (Always-pure _ (ground arith)))
              (λ q. hand_on-Falls (revised act hr)))
          (λ t. Always-then _ _ (Always-pure _ (ground arith)))

    approval-Falls : (act : Action) → Always (Good (Falls v)) (approval env v act)
    unfolding approval
    approval-Falls act =
        Always-on_option _ _ _ (λ n. unasked-Falls act _)
          λ asked some. Always-bind _ _ λ should.
            Always-on_result should _ _ (λ x. Always-fail env v _ x tt)
              λ b.
                Always-if b _ _
                  (λ t. Always-bind _ _ λ waited.
                    Always-on_result waited _ _
                      (λ x. wait_failed-Good v _ (Always-then _ _ (Always-pure _ tt)))
                      (human_answer-Falls act))
                  (λ t. unasked-Falls act _)

  pub interrupt-Falls :
      (v : Vars)
      → Inv env v
      → v.state ≡ LoopState.interrupt
      → Always (Good (Falls v)) (interrupt_step env v)
  unfolding interrupt_step
  interrupt-Falls v i e =
      Always-on_option v.pending_action _ _ (λ n. absurd (ground arith))
        λ act p. Always-then _ _ (
          Always-if v.eval_escalate _ _ (escalation-Falls v act i e)
            (λ f. approval-Falls v i e f act))

  plan_rejected-keeps :
      (v : Vars) (hr : Option HumanResponse)
      → Inv env v
      → v.state ≡ LoopState.plan_review
      → Always (Good (Inv env)) (plan_rejected env v hr)
  unfolding plan_rejected effects
  plan_rejected-keeps v hr i e = record { at = λ w. ground arith }

  plan_approval-keeps :
      (v : Vars) (asked : Interrupter W) (evt : InterruptEvent)
      → Inv env v
      → v.state ≡ LoopState.plan_review
      → Always (Good (Inv env)) (plan_approval env v asked evt)
  unfolding plan_approval
  plan_approval-keeps v asked evt i e = Always-bind _ _ λ waited.
      Always-on_result waited _ _ (λ x. wait_failed-Good v _ (Always-fail env v _ x tt))
        λ hr.
          Always-if (is_approved hr) _ _ (λ t. Always-pure _ (ground arith))
            (λ t. plan_rejected-keeps v hr i e)

  -- A rejected plan is reviewed again, as often as the human rejects it.
  pub plan_review-keeps :
      (v : Vars)
      → Inv env v
      → v.state ≡ LoopState.plan_review
      → Always (Good (Inv env)) (plan_review_step env v)
  unfolding plan_review_step
  plan_review-keeps v i e =
      Always-on_option env.interrupter _ _ (λ n. Always-pure _ (ground arith))
        λ asked found. Always-bind _ _ λ digest. Always-bind _ _ λ should.
          Always-on_result should _ _ (λ x. Always-fail env v _ x tt)
            λ b.
              Always-if b _ _ (λ t. plan_approval-keeps v asked _ i e)
                (λ t. Always-pure _ (ground arith))
