-- ===== src/Agent/Run/Approved.antt =====
-- agent/loop.go under interrupter/hitl.go: what runs was exempt, or a human approved it in time.
use simple_agent_framework.Prelude.{
  ◌≡◌, ◌≢◌, refl, ap, sym, ◌∙◌, true, false, List, [], ◌∷◌, Option, none, some, some-injective,
  Option-cases, Bool-cases, ◌⊎◌, inl, inr, arith,
}
use simple_agent_framework.Prelude.Text.{Text, text_eq, text_eq_refl}
use simple_agent_framework.Errors.{Exec, Result, ok, err}
use simple_agent_framework.Planner.{Planner, Action, tool_call}
use simple_agent_framework.Interrupter.{InterruptEvent, before_tool_call, HumanResponse}
use simple_agent_framework.Interrupter.Hitl.{
  HitlHandler, handler, should_interrupt, should_interrupt_for_tool, wait_for_human, raced,
  tool_in_list, is_read_class_tool, is_tool_call, listed,
}
use simple_agent_framework.Agent.Loop.State.{Env, Vars, LoopState, go}
use simple_agent_framework.Agent.Loop.Interrupt.{revised}
use simple_agent_framework.Agent.Run.{round}
use simple_agent_framework.Agent.Run.Rank.{Inv, last_action}
use simple_agent_framework.Agent.Run.Consent.{Consented, call_event, round-licensed}

ok-injective : {A : Type 0} {a b : A} → ok a ≡ ok b → a ≡ b
ok-injective {a = a} e = ap (λ r. elim r [ ok x ↦ x | err x ↦ a ]) e

-- The name is not in the list.
abbrev pub IsAbsent : Text → List Text → Type 0
IsAbsent name [] = Unit {0}
IsAbsent name (t ∷ ts) = (t ≢ name) × IsAbsent name ts

tool_in_list-IsAbsent :
    (name : Text) (l : List Text) → tool_in_list name l ≡ false → IsAbsent name l
unfolding tool_in_list
tool_in_list-IsAbsent name [] h = tt
tool_in_list-IsAbsent name (t ∷ ts) h = (
  λ same.
      absurd (let e : text_eq t name ≡ true = rw same (text_eq_refl name) in ground (arith, e, h)),
  tool_in_list-IsAbsent name ts (ground (arith, h)),
)

module _ {W : Type 0} (h : HitlHandler W) where
  -- By the configuration nobody has to be asked: it is no tool call; or reads are approved and it
  -- is one; or there is a list of tools that require approval, and the tool is not in it.
  abbrev pub IsExempt : Action → Type 0
  IsExempt act =
      (act.kind ≢ tool_call)
      ⊎ (((h.config.auto_approve_read ≡ true) × (is_read_class_tool act.tool_name ≡ true))
          ⊎ ((h.config.require_approval ≢ []) × IsAbsent act.tool_name h.config.require_approval))

  -- The approval function was called with the action and answered that it is approved; when it had
  -- answered, the context was live and the wait timeout had not passed; and the second action is the
  -- first as the human revised it.
  abbrev pub IsApproved : Action → Action → Type 0
  IsApproved act act' =
      (f : InterruptEvent → Exec W (Option HumanResponse)) × (u u' : W) × (hr : HumanResponse)
      × (h.approval_fn ≡ some f)
      × (f (record { kind = before_tool_call; action = act }) u ≡ (ok (some hr), u'))
      × (h.expired u' ≡ none)
      × (hr.approved ≡ true)
      × (act' ≡ revised act (some hr))

  unlisted : (name : Text) (l : List Text) → listed name l ≡ false → (l ≢ []) × IsAbsent name l
  unlisted name [] e = absurd (cc)
  unlisted name (t ∷ ts) e = (λ empty. cc, tool_in_list-IsAbsent name (t ∷ ts) e)

  should_interrupt_for_tool-IsExempt :
      (act : Action) → should_interrupt_for_tool h act ≡ false → IsExempt act
  unfolding should_interrupt_for_tool
  should_interrupt_for_tool-IsExempt act e = elim (Bool-cases (is_tool_call act.kind)) [
    | inr other ↦ inl (λ call. absurd (let t = ap is_tool_call call in cc))
    | inl call ↦ elim (Bool-cases h.config.auto_approve_read) [
      | inl auto ↦ elim (Bool-cases (is_read_class_tool act.tool_name)) [
        | inl reads ↦ inr (inl (auto, reads))
        | inr writes ↦ inr (
            inr
              (unlisted act.tool_name h.config.require_approval (ground (arith, e, call, writes))))
      ]
      | inr strict ↦
          inr (
            inr
              (unlisted act.tool_name h.config.require_approval (ground (arith, e, call, strict))))
    ]
  ]

  raced-in_time :
      (r : Result (Option HumanResponse)) (w : W) (hr : HumanResponse)
      → (raced h (r, w)).0 ≡ ok (some hr)
      → (r ≡ ok (some hr)) × (h.expired w ≡ none)
  raced-in_time r w hr e = elim (Option-cases (h.expired w)) [
    | inl in_time ↦ (rw (raced, in_time) at e, in_time)
    | inr (x, late) ↦ absurd (let z : err x ≡ ok (some hr) = rw (raced, late) at e in cc)
  ]

  wait_for_human-IsApproved :
      (act : Action) (u : W) (hr : HumanResponse)
      → (wait_for_human h (record { kind = before_tool_call; action = act }) u).0 ≡ ok (some hr)
      → hr.approved ≡ true
      → IsApproved act (revised act (some hr))
  unfolding wait_for_human
  wait_for_human-IsApproved act u hr e agreed = elim (Option-cases h.approval_fn) [
    | inl nobody ↦ absurd (let z = rw (wait_for_human, nobody) at e in cc)
    | inr (f, asked) ↦
        (let (r, u') = f (record { kind = before_tool_call; action = act }) u in
          let (answer, in_time) = raced-in_time r u' hr (rw (wait_for_human, asked) at e) in
          (f, u, u', hr, asked, ap (λ x. (x, u')) answer, in_time, agreed, refl))
  ]

module _ {W : Type 0} (env : Env W) (h : HitlHandler W)
    (set : env.interrupter ≡ some (handler h)) where
  Consented-by_handler :
      (act act' : Action)
      → Consented env act act'
      → (IsExempt h act × (act' ≡ act)) ⊎ IsApproved h act act'
  unfolding handler should_interrupt
  Consented-by_handler act act' (inl (nobody, same)) = absurd (cc)
  Consented-by_handler act act' (inr (i, found, inl (w, passed, same))) =
      (let which : i ≡ handler h = some-injective i (handler h) (sym found ∙ set) in
        let e : ok (should_interrupt_for_tool h act) ≡ ok false = rw which at passed in
        inl (should_interrupt_for_tool-IsExempt h act (ok-injective e), same))
  Consented-by_handler act act' (inr (i, found, inr (w, u, hr, asked, answer, agreed, same))) =
      (let which : i ≡ handler h = some-injective i (handler h) (sym found ∙ set) in
        let e : (wait_for_human h (call_event env act) u).0 ≡ ok (some hr) = rw which at answer in
        inr (rw same (wait_for_human-IsApproved h act u hr e agreed)))

  -- Where the interrupter is a HITLHandler, a round that leads to the execution of an action comes
  -- from the evaluator and repeats the action that has just been executed; or it comes from the check
  -- of a planned action. Then the handler's configuration exempts the planned action, which is the
  -- one to be executed; or the approval function was asked about it and approved it before the wait
  -- timeout, with a live context, and what is to be executed is the action as the human revised it.
  pub round-handled :
      (plan : Planner W) (v v' : Vars) (w w' : W)
      → Inv env v
      → round env plan v w ≡ (go v', w')
      → v'.state ≡ LoopState.executing
      → ((v.state ≡ LoopState.interrupt)
          × ((act act' : Action) × (v.pending_action ≡ some act)
              × (v'.pending_action ≡ some act')
              × ((IsExempt h act × (act' ≡ act)) ⊎ IsApproved h act act')))
        ⊎ ((v.state ≡ LoopState.evaluating) × (v'.pending_action ≡ last_action env v.last_exec))
  round-handled plan v v' w w' i r runs = by_source (round-licensed env plan v v' w w' i r runs)
    where
      by_source :
          ((v.state ≡ LoopState.interrupt)
              × ((act act' : Action) × (v.pending_action ≡ some act)
                  × (v'.pending_action ≡ some act')
                  × Consented env act act'))
            ⊎ ((v.state ≡ LoopState.evaluating) × (v'.pending_action ≡ last_action env v.last_exec))
          → ((v.state ≡ LoopState.interrupt)
              × ((act act' : Action) × (v.pending_action ≡ some act)
                  × (v'.pending_action ≡ some act')
                  × ((IsExempt h act × (act' ≡ act)) ⊎ IsApproved h act act')))
            ⊎ ((v.state ≡ LoopState.evaluating) × (v'.pending_action ≡ last_action env v.last_exec))
      by_source (inr repeated) = inr repeated
      by_source (inl (e, (act, act', planned, next, c))) =
          inl (e, (act, act', planned, next, Consented-by_handler act act' c))
