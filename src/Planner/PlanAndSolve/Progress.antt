-- ===== src/Planner/PlanAndSolve/Progress.antt =====
-- planner/plan_and_solve.go: the steps are run one after the other.
use simple_agent_framework.Prelude.{
  ℕ, suc, zero, ◌+◌, ◌≤◌, ◌≡◌, ◌≢◌, refl, ap, List, [], ◌∷◌, Option, none, some, arith,
  Option-cases, inl, inr,
}
use simple_agent_framework.Prelude.Int.{ℤ}
use simple_agent_framework.Prelude.Text.{Text}
use simple_agent_framework.Errors.{Error, ok, err, Result}
use simple_agent_framework.Model.{ChatMessage}
use simple_agent_framework.Planner.{PlanState, StepStatus, PlanStep, ActionPlan}
use simple_agent_framework.Planner.PlanAndSolve.{
  PlanAndSolvePlanner, Held, next_step, running_step, start_step, step_at, mark_step, take_step,
  then_take, marked, plan, planned, generate_plan_with_notes, mark_step_done, mark_step_failed,
  replan,
}

-- How many steps are running.
unfoldable pub running_count : List PlanStep → ℕ
running_count [] = 0
running_count (s ∷ ss) = elim s.status [ StepStatus.running ↦ 1 | _ ↦ 0 ] + running_count ss

abbrev pub plan_running : Option ActionPlan → ℕ
plan_running none = 0
plan_running (some ap) = running_count ap.steps

start_step-count :
    (n : ℕ) (ss : List PlanStep) → running_count (start_step n ss) ≤ suc (running_count ss)
unfolding start_step running_count
start_step-count n [] = omega arith
start_step-count zero (s ∷ ss) = omega arith
start_step-count (suc n) (s ∷ ss) = (let ih = start_step-count n ss in ground arith)

mark_step-count :
    (id : ℤ) (status : StepStatus) (r : Text) (ss : List PlanStep)
    → status ≢ StepStatus.running
    → running_count (mark_step id status r ss) ≤ running_count ss
unfolding mark_step running_count
mark_step-count id status r [] h = omega arith
mark_step-count id status r (s ∷ ss) h = (let ih = mark_step-count id status r ss h in ground arith)

running_step-count : (ss : List PlanStep) → running_step ss ≡ none → running_count ss ≡ 0
unfolding running_step running_count
running_step-count [] h = refl
running_step-count (s ∷ ss) h = (let ih = running_step-count ss in ground arith)

-- A call of the planner.
pub data Call : Type 0 where
  plan_call replan_call : PlanState → Call
  done_call : ℤ → Text → Call
  failed_call : ℤ → Option Error → Call

module _ {W : Type 0} (p : PlanAndSolvePlanner W) where
  held_step-count :
      (o : Option ActionPlan) (w : W)
      → plan_running o ≤ 1
      → plan_running (take_step p (record { plan = o; world = w })).1.plan ≤ 1
  unfolding take_step
  held_step-count none w le = le
  held_step-count (some steps) w le = elim (Option-cases (running_step steps.steps)) [
    | inr (s, busy) ↦ rw (take_step, busy) le
    | inl free ↦ elim (Option-cases (next_step steps.steps)) [
      | inl over ↦ rw (take_step, free, over) le
      | inr (i, found) ↦ elim (Option-cases (step_at i steps.steps)) [
        | inl out ↦ rw (take_step, free, found, out) le
        | inr (s, at) ↦
            rw (take_step, free, found, at)
              (omega (arith, start_step-count i steps.steps, running_step-count steps.steps free))
      ]
    ]
  ]

  take_step-count : (h : Held W) → plan_running h.plan ≤ 1 → plan_running (take_step p h).1.plan ≤ 1
  take_step-count h le = held_step-count h.plan h.world le

  unfoldable pub call : Call → Held W → Held W
  call (plan_call state) h = (plan p state h).1
  call (replan_call state) h = (replan p state h).1
  call (done_call id r) h = mark_step_done id r h
  call (failed_call id e) h = mark_step_failed id e h

  unfoldable pub calls : List Call → Held W → Held W
  calls [] h = h
  calls (c ∷ cs) h = calls cs (call c h)

  module _
      (parsed : (t : Text) (ap : ActionPlan) → p.parse t ≡ ok ap → running_count ap.steps ≡ 0) where
    planned-count :
        (h : Held W) (r : Result (Option ChatMessage) × W)
        → plan_running h.plan ≤ 1
        → plan_running (planned p h r).1.plan ≤ 1
    planned-count h (err e, w) le = le
    planned-count h (ok none, w) le = le
    planned-count h (ok (some reply), w) le = by_parse (p.parse reply.content) refl
      where
        by_parse :
            (r : Result ActionPlan)
            → p.parse reply.content ≡ r
            → plan_running (planned p h (ok (some reply), w)).1.plan ≤ 1
        by_parse (err e) same = rw (planned, same) le
        by_parse (ok made) same =
            rw (planned, same) (let z = parsed reply.content made same in omega arith)

    generate-count :
        (completed : Text) (state : PlanState) (h : Held W)
        → plan_running h.plan ≤ 1
        → plan_running (generate_plan_with_notes p completed state h).1.plan ≤ 1
    unfolding generate_plan_with_notes
    generate-count completed state h le = elim (Option-cases p.model) [
      | inl missing ↦ simp (generate_plan_with_notes, missing) le
      | inr (m, given) ↦ simp (generate_plan_with_notes, given) (planned-count h _ le)
    ]

    then_take-count :
        (r : Result (Unit {0}) × Held W)
        → plan_running r.1.plan ≤ 1
        → plan_running (then_take p r).1.plan ≤ 1
    then_take-count (err e, h) le = le
    then_take-count (ok u, h) le = take_step-count h le

    plan-count :
        (state : PlanState) (h : Held W)
        → plan_running h.plan ≤ 1
        → plan_running (plan p state h).1.plan ≤ 1
    unfolding plan
    plan-count state h le = elim (Option-cases p.model) [
      | inl missing ↦ simp (plan, missing) le
      | inr (m, given) ↦ elim (Option-cases h.plan) [
        | inl nothing ↦
            simp (plan, given, nothing) (then_take-count _ (generate-count [] state h le))
        | inr (a, held) ↦ simp (plan, given, held) (take_step-count h le)
      ]
    ]

    marked-count :
        (id : ℤ) (status : StepStatus) (r : Text) (h : Held W)
        → status ≢ StepStatus.running
        → plan_running h.plan ≤ 1
        → plan_running (marked id status r h).plan ≤ 1
    unfolding marked
    marked-count id status r h other le = elim (Option-cases h.plan) [
      | inl nothing ↦ simp (marked, nothing) (omega arith)
      | inr (a, held) ↦
          (let le' = rw held at le in
            simp (marked, held) (omega (arith, le', mark_step-count id status r a.steps other)))
    ]

    call-count :
        (c : Call) (h : Held W) → plan_running h.plan ≤ 1 → plan_running (call c h).plan ≤ 1
    unfolding call replan mark_step_done mark_step_failed
    call-count (plan_call state) h le = plan-count state h le
    call-count (replan_call state) h le = generate-count _ state _ (omega arith)
    call-count (done_call id r) h le = marked-count id StepStatus.done r h (λ e. cc) le
    call-count (failed_call id e) h le = marked-count id StepStatus.failed _ h (λ e. cc) le

    -- Whatever the calls are, and in whatever order, at most one step of the plan is running, if at
    -- most one is at first and a parsed plan has none running.
    pub calls-one_running :
        (cs : List Call) (h : Held W) → plan_running h.plan ≤ 1 → plan_running (calls cs h).plan ≤ 1
    unfolding calls
    calls-one_running [] h le = le
    calls-one_running (c ∷ cs) h le = calls-one_running cs (call c h) (call-count c h le)
