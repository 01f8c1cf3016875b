-- ===== src/Agent/Run/Consent.antt =====
-- agent/loop.go runs a tool only with consent.
use simple_agent_framework.Prelude.{
  ◌≡◌, refl, true, false, Option, none, some, ◌⊎◌, inl, inr, arith, ap, sym, ◌∙◌, if◌then◌else◌,
}
use simple_agent_framework.Prelude.Text.{Text}
use simple_agent_framework.Errors.{ok}
use simple_agent_framework.Planner.{Planner, Action}
use simple_agent_framework.Interrupter.{
  Interrupter, InterruptEvent, before_tool_call, on_escalate, HumanResponse,
}
use simple_agent_framework.Agent.Loop.State.{Env, Vars, LoopState, Next, go}
use simple_agent_framework.Agent.Loop.Effects.{M, effects}
use simple_agent_framework.Agent.Loop.Plan.{init_step, is_approved}
use simple_agent_framework.Agent.Loop.Interrupt.{
  interrupt_step, escalation, approval, human_answer, unasked, hand_on, revised, is_ask_human,
}
use simple_agent_framework.Agent.Loop.Evaluate.{evaluating_step}
use simple_agent_framework.Agent.Run.{dispatch, round}
use simple_agent_framework.Agent.Run.Always.{
  Always, Always-pure, Always-seen, Always-answered, Always-then, Always-if, Always-fail,
  Always-on_option, Always-map, Good,
}
use simple_agent_framework.Agent.Run.Rank.{Inv, last_action}
use simple_agent_framework.Agent.Run.Asking.{wait_failed-Good}
use simple_agent_framework.Agent.Run.Rounds.{round-Always}
use simple_agent_framework.Agent.Run.Elsewhere.{
  Elsewhere, plan_gen-Elsewhere, plan_review-Elsewhere, planning-Elsewhere, executing-Elsewhere,
  completing-Elsewhere,
}

module _ {W : Type 0} (env : Env W) where
  abbrev pub call_event : Action → InterruptEvent
  call_event act = record { kind = before_tool_call; action = act }

  -- The planned action `act` may be executed as `act'`: there is no interrupter, or it said that
  -- nobody needs to be asked, and the action is as planned; or it said that somebody has to be, and
  -- a human approved, with `act'` the action as the human revised it.
  abbrev pub Consented : Action → Action → Type 0
  Consented act act' =
      ((env.interrupter ≡ none) × (act' ≡ act))
      ⊎ ((i : Interrupter W) × (env.interrupter ≡ some i)
          × (((w : W) × ((i.should_interrupt (call_event act) w).0 ≡ ok false) × (act' ≡ act))
              ⊎ ((w u : W) × (hr : HumanResponse) × ((i.should_interrupt (call_event act) w).0
                    ≡ ok true)
                  × ((i.wait_for_human (call_event act) u).0 ≡ ok (some hr))
                  × (hr.approved ≡ true)
                  × (act' ≡ revised act (some hr)))))

  -- Where the loop goes on to execute an action, it comes from the check of that action, with
  -- consent, or from the evaluator, with the action that has just been executed.
  abbrev pub Licensed : Vars → Vars → Type 0
  Licensed v v' =
      v'.state ≡ LoopState.executing
      → ((v.state ≡ LoopState.interrupt)
          × ((act act' : Action) × (v.pending_action ≡ some act)
              × (v'.pending_action ≡ some act')
              × Consented act act'))
        ⊎ ((v.state ≡ LoopState.evaluating) × (v'.pending_action ≡ last_action env v.last_exec))

  module _ (v : Vars) (e : v.state ≡ LoopState.interrupt) (act : Action)
      (p : v.pending_action ≡ some act) where
    hand_on-Licensed :
        (act' : Action) → Consented act act' → Always (Good (Licensed v)) (hand_on env v act')
    unfolding hand_on effects
    hand_on-Licensed act' c = record { at = λ w. λ _. inl (e, (act, act', p, refl, c)) }

    unasked-Licensed :
        (note : Text)
        → (is_ask_human act.kind ≡ false → Consented act act)
        → Always (Good (Licensed v)) (unasked env v act note)
    unfolding unasked
    unasked-Licensed note c =
        Always-if (is_ask_human act.kind) _ _
          (λ t. Always-then _ _ (Always-pure _ (λ x. absurd (ground arith))))
          (λ t. hand_on-Licensed act (c t))

    human_answer-Licensed :
        (hr : Option HumanResponse)
        → (is_approved hr ≡ true → is_ask_human act.kind ≡ false → Consented act (revised act hr))
        → Always (Good (Licensed v)) (human_answer env v act hr)
    unfolding human_answer
    human_answer-Licensed hr c =
        Always-if (is_approved hr) _ _
          (λ t.
            Always-if (is_ask_human act.kind) _ _
              (λ q. Always-then _ _ (Always-pure _ (λ x. absurd (ground arith))))
              (λ q. hand_on-Licensed (revised act hr) (c t q)))
          (λ t. Always-then _ _ (Always-pure _ (λ x. absurd (ground arith))))

    asked_event : InterruptEvent
    asked_event = record {
      kind = if is_ask_human act.kind then on_escalate else before_tool_call;
      action = act;
    }

    same_event : is_ask_human act.kind ≡ false → asked_event ≡ call_event act
    unfolding asked_event
    same_event q = rw q refl

    passed :
        (i : Interrupter W) (w : W)
        → env.interrupter ≡ some i
        → (i.should_interrupt asked_event w).0 ≡ ok false
        → is_ask_human act.kind ≡ false
        → Consented act act
    passed i w s h q =
        inr (i, s, inl (w, sym (ap (λ x. (i.should_interrupt x w).0) (same_event q)) ∙ h, refl))

    approved :
        (i : Interrupter W) (w u : W) (hr : Option HumanResponse)
        → env.interrupter ≡ some i
        → (i.should_interrupt asked_event w).0 ≡ ok true
        → (i.wait_for_human asked_event u).0 ≡ ok hr
        → is_approved hr ≡ true
        → is_ask_human act.kind ≡ false
        → Consented act (revised act hr)
    approved i w u none s h h' t q = absurd (cc)
    approved i w u (some hr) s h h' t q = inr (
      i,
      s,
      inr (
        w,
        u,
        hr,
        sym (ap (λ x. (i.should_interrupt x w).0) (same_event q)) ∙ h,
        sym (ap (λ x. (i.wait_for_human x u).0) (same_event q)) ∙ h',
        t,
        refl,
      ),
    )

    approval-Licensed : Always (Good (Licensed v)) (approval env v act)
    unfolding approval asked_event
    approval-Licensed =
        Always-on_option env.interrupter _ _ (λ n. unasked-Licensed _ (λ q. inl (n, refl)))
          λ i s. Always-seen _ _ λ w.
            Always-answered _ _ _ (λ x. Always-fail env v _ x tt)
              λ b h.
                Always-if b _ _
                  (λ t. Always-seen _ _ λ u.
                    Always-answered _ _ _
                      (λ x. wait_failed-Good env v _ (Always-then _ _ (Always-pure _ tt)))
                      (λ hr h'.
                        human_answer-Licensed hr (λ y q. approved i w u hr s (h ∙ ap ok t) h' y q)))
                  (λ f. unasked-Licensed _ (λ q. passed i w s (h ∙ ap ok f) q))

  interrupt-Licensed :
      (v : Vars)
      → Inv env v
      → v.state ≡ LoopState.interrupt
      → Always (Good (Licensed v)) (interrupt_step env v)
  unfolding interrupt_step escalation effects
  interrupt-Licensed v i e =
      Always-on_option v.pending_action _ _ (λ n. absurd (ground arith))
        λ act p. Always-then _ _ (
          Always-if v.eval_escalate _ _ (λ t. record { at = λ w. ground arith })
            (λ f. approval-Licensed v e act p))

  elsewhere : (v : Vars) (m : M W Next) → Always (Elsewhere env) m → Always (Good (Licensed v)) m
  elsewhere v m = Always-map (λ v' no x. absurd (no x))

  evaluating-Licensed :
      (v : Vars)
      → Inv env v
      → v.state ≡ LoopState.evaluating
      → Always (Good (Licensed v)) (evaluating_step env v)
  unfolding evaluating_step effects
  evaluating-Licensed v i e = record { at = λ w. ground arith }

  -- A round that leads to the execution of an action either comes from the check of that action,
  -- where there is no interrupter, or it let the action pass, or a human approved it and the action
  -- is the one planned with the human's input in place; or it comes from the evaluator and repeats
  -- the action that has just been executed.
  pub round-licensed :
      (plan : Planner W) (v v' : Vars) (w w' : W)
      → Inv env v
      → round env plan v w ≡ (go v', w')
      → v'.state ≡ LoopState.executing
      → ((v.state ≡ LoopState.interrupt)
          × ((act act' : Action) × (v.pending_action ≡ some act)
              × (v'.pending_action ≡ some act')
              × Consented act act'))
        ⊎ ((v.state ≡ LoopState.evaluating) × (v'.pending_action ≡ last_action env v.last_exec))
  unfolding dispatch init_step
  round-licensed plan v v' w w' i r =
      (let good : Good (Licensed v) (round env plan v w).0 =
          (round-Always env plan v (by_state v.state refl)).at w in
        rw r at good)
    where
      by_state : (s : LoopState) → v.state ≡ s → Always (Good (Licensed v)) (dispatch env plan s v)
      by_state LoopState.init e = elsewhere v _ (Always-pure _ (λ x. absurd (ground arith)))
      by_state LoopState.plan_gen e = elsewhere v _ (plan_gen-Elsewhere env v)
      by_state LoopState.plan_review e = elsewhere v _ (plan_review-Elsewhere env v i e)
      by_state LoopState.planning e = elsewhere v _ (planning-Elsewhere env plan v)
      by_state LoopState.interrupt e = interrupt-Licensed v i e
      by_state LoopState.executing e = elsewhere v _ (executing-Elsewhere env v i e)
      by_state LoopState.evaluating e = evaluating-Licensed v i e
      by_state LoopState.completing e = elsewhere v _ (completing-Elsewhere env v)
      by_state LoopState.complete e = Always-pure _ tt
      by_state LoopState.failed e = Always-pure _ tt
