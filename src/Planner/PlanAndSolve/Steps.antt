-- ===== src/Planner/PlanAndSolve/Steps.antt =====
-- planner/plan_and_solve.go: where the next step, the running step and a marked step are found.
use simple_agent_framework.Prelude.{
  ◌≡◌, refl, ap, Bool, true, false, not, ◌&&◌, List, [], ◌∷◌, ◌++◌, all, none, some, length, arith,
}
use simple_agent_framework.Prelude.Int.{ℤ, pos, negsuc, int_eq}
use simple_agent_framework.Prelude.Text.{Text}
use simple_agent_framework.Planner.{StepStatus, PlanStep}
use simple_agent_framework.Planner.PlanAndSolve.{
  next_step, running_step, start_step, step_at, mark_step,
}

abbrev pub is_settled : PlanStep → Bool
is_settled s = elim s.status [ StepStatus.done ↦ true | StepStatus.skipped ↦ true | _ ↦ false ]

abbrev pub is_pending : PlanStep → Bool
is_pending s = elim s.status [ StepStatus.pending ↦ true | _ ↦ false ]

-- No step of the list has the identifier.
abbrev pub absent : ℤ → List PlanStep → Bool
absent id ss = all (λ s. not (int_eq s.step_id id)) ss

-- The identifiers of the steps differ from each other and from those of the steps before.
abbrev pub distinct_from : List PlanStep → List PlanStep → Bool
distinct_from before [] = true
distinct_from before (s ∷ ss) = absent s.step_id before && distinct_from (s ∷ before) ss

abbrev pub distinct_ids : List PlanStep → Bool
distinct_ids = distinct_from []

pub int_eq_refl : (z : ℤ) → int_eq z z ≡ true
int_eq_refl (pos n) = ground arith
int_eq_refl (negsuc n) = ground arith

abbrev pub running_now : PlanStep → PlanStep
running_now s = record s { status = StepStatus.running }

abbrev pub done_with : Text → PlanStep → PlanStep
done_with r s = record s { status = StepStatus.done; result = r }

pub next_step-at :
    (before : List PlanStep) (s : PlanStep) (rest : List PlanStep)
    → all is_settled before ≡ true
    → is_pending s ≡ true
    → next_step (before ++ s ∷ rest) ≡ some (length before)
unfolding next_step
next_step-at [] s rest h q = ground arith
next_step-at (b ∷ before) s rest h q = (let ih = next_step-at before s rest in ground arith)

pub next_step-end :
    (before : List PlanStep) → all is_settled before ≡ true → next_step before ≡ none
unfolding next_step
next_step-end [] h = refl
next_step-end (b ∷ before) h = (let ih = next_step-end before in ground arith)

pub step_at-length :
    (before : List PlanStep) (s : PlanStep) (rest : List PlanStep)
    → step_at (length before) (before ++ s ∷ rest) ≡ some s
unfolding step_at
step_at-length [] s rest = refl
step_at-length (b ∷ before) s rest = step_at-length before s rest

pub start_step-length :
    (before : List PlanStep) (s : PlanStep) (rest : List PlanStep)
    → start_step (length before) (before ++ s ∷ rest) ≡ before ++ running_now s ∷ rest
unfolding start_step
start_step-length [] s rest = refl
start_step-length (b ∷ before) s rest = ap (λ t. b ∷ t) (start_step-length before s rest)

pub running_step-none :
    (before rest : List PlanStep)
    → all is_settled before ≡ true
    → all is_pending rest ≡ true
    → running_step (before ++ rest) ≡ none
unfolding running_step
running_step-none [] [] h q = refl
running_step-none [] (s ∷ rest) h q = (let ih = running_step-none [] rest refl in ground arith)
running_step-none (b ∷ before) rest h q = (let ih = running_step-none before rest in ground arith)

pub running_step-found :
    (before : List PlanStep) (s : PlanStep) (rest : List PlanStep)
    → all is_settled before ≡ true
    → running_step (before ++ running_now s ∷ rest) ≡ some (running_now s)
unfolding running_step
running_step-found [] s rest h = refl
running_step-found (b ∷ before) s rest h =
    (let ih = running_step-found before s rest in ground arith)

pub mark_step-found :
    (before : List PlanStep) (s : PlanStep) (rest : List PlanStep) (r : Text)
    → absent s.step_id before ≡ true
    → mark_step s.step_id StepStatus.done r (before ++ running_now s ∷ rest)
      ≡ before ++ done_with r s ∷ rest
unfolding mark_step
mark_step-found [] s rest r h = rw (int_eq_refl s.step_id) refl
mark_step-found (b ∷ before) s rest r h = (let ih = mark_step-found before s rest r in ground arith)
