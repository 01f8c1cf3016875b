-- ===== src/Evaluator/Composite.antt =====
-- evaluator/composite.go: the evaluator that asks others and takes the strongest decision.
pub mod Strongest
use simple_agent_framework.Prelude.{ℕ, ltb, List, [], ◌∷◌, ◌++◌, if◌then◌else◌}
use simple_agent_framework.Prelude.Text.{Text, codes, is_empty, join}
use simple_agent_framework.Errors.{Exec, Result, ok, err}
use simple_agent_framework.Evaluator.{Decision, EvalState, EvalResult, Evaluator}

abbrev pub decision_priority : Decision → ℕ
decision_priority Decision.complete = 5
decision_priority Decision.escalate = 4
decision_priority Decision.retry = 3
decision_priority Decision.replan = 2
decision_priority Decision.continue = 0
decision_priority (Decision.unknown n) = 0

-- `parts`, after a feedback.
abbrev pub with_feedback : List Text → Text → List Text
with_feedback parts feedback = if is_empty feedback then parts else parts ++ feedback ∷ []

-- The loop over the evaluators.
unfoldable pub gather :
    {W : Type 0} → List (Evaluator W) → EvalState → List Text → Decision → ℕ → Exec W EvalResult
gather [] state parts best best_p w =
    (ok (record { decision = best; feedback = join (codes "\n") parts }), w)
gather (ev ∷ evs) state parts best best_p w =
    let (answer, w') = ev state w in
    elim answer [
      | err e ↦ (err e, w')
      | ok res ↦
          (let p = decision_priority res.decision in
            gather evs state (with_feedback parts res.feedback)
              (if ltb best_p p then res.decision else best) (if ltb best_p p then p else best_p) w')
    ]

unfoldable pub evaluate_composite : {W : Type 0} → List (Evaluator W) → Evaluator W
unfolding gather
evaluate_composite evs state = gather evs state [] Decision.continue 0
