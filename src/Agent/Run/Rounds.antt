-- ===== src/Agent/Run/Rounds.antt =====
-- Each handler of agent/loop.go keeps the invariant, and takes a round from the rank.
use simple_agent_framework.Prelude.{
  suc, ◌-◌, ◌<◌, ◌≡◌, refl, false, none, arith, ltb, ◌⊎◌, ◌≢◌, inl, inr,
}
use simple_agent_framework.Planner.{Planner, react, Action, PlanState}
use simple_agent_framework.Agent.LoopDetector.{
  LoopDetector, LoopStatus, normal, warning, terminate, record_sig,
}
use simple_agent_framework.Agent.Run.{dispatch, round}
use simple_agent_framework.Agent.LoopDetector.Run.{threshold-record_sig}
use simple_agent_framework.Agent.LoopDetector.Warned.{slack, slack-record_sig}
use simple_agent_framework.Agent.Loop.State.{Env, Vars, LoopState, Next}
use simple_agent_framework.Agent.Loop.Effects.{M, effects}
use simple_agent_framework.Agent.Loop.Plan.{init_step, plan_gen_step, plan_review_step}
use simple_agent_framework.Agent.Loop.Planning.{planning_step, next_plan}
use simple_agent_framework.Agent.Loop.Execute.{executing_step, record_call, run_tool, executed}
use simple_agent_framework.Agent.Loop.Evaluate.{evaluating_step}
use simple_agent_framework.Agent.Loop.Complete.{completing_step}
use simple_agent_framework.Agent.Run.Always.{
  Always, Always-pure, Always-bind, Always-then, Always-if, Always-fail, Always-on_result,
  Always-on_option, Always-map, Good,
}
use simple_agent_framework.Agent.Run.Rank.{Inv, budget-suc, slack_of, sig_of}
use simple_agent_framework.Agent.Run.Asking.{Falls, interrupt-Falls, plan_review-keeps}

module _ {W : Type 0} (env : Env W) where
  init-Falls :
      (v : Vars)
      → Inv env v
      → v.state ≡ LoopState.init
      → Always (Good (Falls env v)) (init_step env v)
  unfolding init_step
  init-Falls v i e = Always-pure _ (ground arith)

  plan_gen-Falls :
      (v : Vars)
      → Inv env v
      → v.state ≡ LoopState.plan_gen
      → Always (Good (Falls env v)) (plan_gen_step env v)
  unfolding plan_gen_step effects
  plan_gen-Falls v i e = record { at = λ w. ground arith }

  completing-Falls :
      (v : Vars)
      → Inv env v
      → v.state ≡ LoopState.completing
      → Always (Good (Falls env v)) (completing_step env v)
  unfolding completing_step effects
  completing-Falls v i e = record { at = λ w. ground arith }

  evaluating-Falls :
      (v : Vars)
      → Inv env v
      → v.state ≡ LoopState.evaluating
      → Always (Good (Falls env v)) (evaluating_step env v)
  unfolding evaluating_step effects
  evaluating-Falls v i e = record { at = λ w. ground arith }

  plan_review-Falls :
      (v : Vars)
      → Inv env v
      → v.state ≡ LoopState.plan_review
      → env.interrupter ≡ none
      → Always (Good (Falls env v)) (plan_review_step env v)
  unfolding plan_review_step effects
  plan_review-Falls v i e n = record { at = λ w. ground arith }

  counted : Vars → Vars
  counted v = record v { iteration = suc v.iteration }

  next_plan-Falls :
      (plan : Planner W) (v : Vars) (ps : PlanState)
      → Inv env v
      → v.state ≡ LoopState.planning
      → ltb env.max_iterations (suc v.iteration) ≡ false
      → Always (Good (Falls env v)) (next_plan env plan (counted v) ps)
  unfolding next_plan effects counted
  next_plan-Falls plan v ps i e f = record {
    at = λ w.
        ground (arith, budget-suc v.detector.threshold (env.max_iterations - v.iteration), left);
  }
    where
      left : suc env.max_iterations - v.iteration ≡ suc (env.max_iterations - v.iteration)
      left = ground arith

  planning-Falls :
      (plan : Planner W) (v : Vars)
      → Inv env v
      → v.state ≡ LoopState.planning
      → Always (Good (Falls env v)) (planning_step env plan v)
  unfolding planning_step counted
  planning-Falls plan v i e =
      Always-if _ _ _ (λ t. Always-pure _ tt)
        λ f. Always-bind _ _ λ built.
          Always-on_result built _ _ (λ e'. Always-fail env v _ e' tt)
            λ ps. Always-bind _ _ λ fitted.
              Always-on_result fitted _ _ (λ e'. Always-fail env v _ e' tt)
                λ ps'. next_plan-Falls plan v ps' i e f

  run_tool-Falls :
      (v : Vars) (act : Action) (status : LoopStatus) (d : LoopDetector)
      → Inv env v
      → v.state ≡ LoopState.executing
      → d.threshold ≡ v.detector.threshold
      → slack d (sig_of env act) < slack_of env v.detector v.pending_action
      → Always (Good (Falls env v)) (run_tool env v act status d)
  unfolding run_tool executed
  run_tool-Falls v act status d i e same less = Always-then _ _ (
      Always-bind _ _ λ answered.
        Always-on_result answered _ _ (λ x. Always-fail env _ _ x tt)
          λ res. Always-then _ _ (
            Always-bind _ _ λ out.
              Always-then _ _ (Always-then _ _ (Always-then _ _ (Always-pure _ (ground arith))))))

  record_call-Falls :
      (v : Vars) (act : Action) (status : LoopStatus) (d : LoopDetector)
      → Inv env v
      → v.state ≡ LoopState.executing
      → d.threshold ≡ v.detector.threshold
      → (status ≢ terminate → slack d (sig_of env act) < slack_of env v.detector v.pending_action)
      → Always (Good (Falls env v)) (record_call env v act status d)
  unfolding record_call
  record_call-Falls v act terminate d i e same less = Always-fail env _ _ _ tt
  record_call-Falls v act normal d i e same less =
      run_tool-Falls v act normal d i e same (less (λ p. cc))
  record_call-Falls v act warning d i e same less =
      run_tool-Falls v act warning d i e same (less (λ p. cc))

  executing-Falls :
      (v : Vars)
      → Inv env v
      → v.state ≡ LoopState.executing
      → Always (Good (Falls env v)) (executing_step env v)
  unfolding executing_step
  executing-Falls v i e =
      Always-on_option v.pending_action _ _ (λ n. absurd (ground arith))
        λ act found. Always-then _ _ (
          record_call-Falls v act _ _ i e (same act)
            (rw found (slack-record_sig v.detector _ i.threshold)))
    where
      same :
          (act : Action)
          → (record_sig v.detector (sig_of env act)).1.threshold ≡ v.detector.threshold
      same act = threshold-record_sig v.detector _ i.threshold

  -- The states in which a human is asked about the plan, or nothing else.
  abbrev pub NoReview : Type 0
  NoReview = (env.interrupter ≡ none) ⊎ (env.mode ≡ react)

  -- Whatever the world does, a round keeps the invariant and dereferences no nil pointer.
  pub dispatch-keeps :
      (plan : Planner W) (v : Vars)
      → Inv env v
      → Always (Good (Inv env)) (dispatch env plan v.state v)
  unfolding dispatch
  dispatch-keeps plan v i = by_state v.state refl
    where
      kept : {m : M W Next} → Always (Good (Falls env v)) m → Always (Good (Inv env)) m
      kept = Always-map (λ v' h. h.0)

      by_state : (s : LoopState) → v.state ≡ s → Always (Good (Inv env)) (dispatch env plan s v)
      by_state LoopState.init e = kept (init-Falls v i e)
      by_state LoopState.plan_gen e = kept (plan_gen-Falls v i e)
      by_state LoopState.plan_review e = plan_review-keeps env v i e
      by_state LoopState.planning e = kept (planning-Falls plan v i e)
      by_state LoopState.interrupt e = kept (interrupt-Falls env v i e)
      by_state LoopState.executing e = kept (executing-Falls v i e)
      by_state LoopState.evaluating e = kept (evaluating-Falls v i e)
      by_state LoopState.completing e = kept (completing-Falls v i e)
      by_state LoopState.complete e = Always-pure _ tt
      by_state LoopState.failed e = Always-pure _ tt

  -- Where no human reviews a plan, a round that goes on takes one from the rank.
  pub dispatch-Falls :
      (plan : Planner W) (v : Vars)
      → Inv env v
      → NoReview
      → Always (Good (Falls env v)) (dispatch env plan v.state v)
  unfolding dispatch
  dispatch-Falls plan v i quiet = by_state v.state refl
    where
      review : v.state ≡ LoopState.plan_review → env.interrupter ≡ none
      review e = elim quiet [ inl n ↦ n | inr r ↦ absurd (ground arith) ]

      by_state : (s : LoopState) → v.state ≡ s → Always (Good (Falls env v)) (dispatch env plan s v)
      by_state LoopState.init e = init-Falls v i e
      by_state LoopState.plan_gen e = plan_gen-Falls v i e
      by_state LoopState.plan_review e = plan_review-Falls v i e (review e)
      by_state LoopState.planning e = planning-Falls plan v i e
      by_state LoopState.interrupt e = interrupt-Falls env v i e
      by_state LoopState.executing e = executing-Falls v i e
      by_state LoopState.evaluating e = evaluating-Falls v i e
      by_state LoopState.completing e = completing-Falls v i e
      by_state LoopState.complete e = Always-pure _ tt
      by_state LoopState.failed e = Always-pure _ tt

  -- The context is looked at before the handler runs.
  pub round-Always :
      {P : Vars → Type 0} (plan : Planner W) (v : Vars)
      → Always (Good P) (dispatch env plan v.state v)
      → Always (Good P) (round env plan v)
  unfolding round
  round-Always plan v h =
      Always-bind _ _
        λ done. Always-on_option done _ _ (λ n. h) λ e s. Always-then _ _ (Always-pure _ tt)
