-- ===== src/Tests/Evaluators.antt =====
-- evaluator/ on small inputs.
use simple_agent_framework.Prelude.{ℕ, suc, ◌≡◌, refl, if◌then◌else◌, List, [], ◌∷◌, some, none}
use simple_agent_framework.Prelude.Text.{
  Text, codes, join, text_eq, trim_space, has_prefix, to_lower,
}
use simple_agent_framework.Errors.{ok}
use simple_agent_framework.Evaluator.{Decision, EvalState, Evaluator}
use simple_agent_framework.Evaluator.Composite.{evaluate_composite, gather}
use simple_agent_framework.Evaluator.Composite.Strongest.{
  verdict, ask_all, evaluate_composite-verdict,
}
use simple_agent_framework.Evaluator.Judge.{JudgeText, map_decision_string, parse_judge_response}
use simple_agent_framework.Planner.PlanAndSolve.Extract.{index, last_index}

abbrev says : Decision → Text → Evaluator ℕ
says d t state w = (ok (record { decision = d; feedback = t }), suc w)

abbrev three : List (Evaluator ℕ)
three =
    says Decision.retry (codes "a")
    ∷ says Decision.complete []
    ∷ says Decision.escalate (codes "b")
    ∷ []

abbrev nothing_yet : EvalState
nothing_yet = record { messages = []; step_results = []; iteration = 0 }

three_judge :
    evaluate_composite three nothing_yet 0
    ≡ (ok (record { decision = Decision.complete; feedback = codes "a\nb" }), 3)
unfolding evaluate_composite gather join
three_judge = refl

evaluate_composite-verdict_example :
    evaluate_composite three nothing_yet 0 ≡ verdict (ask_all three nothing_yet 0)
evaluate_composite-verdict_example = evaluate_composite-verdict three nothing_yet 0

-- Only `{}` parses.
abbrev braces_only : JudgeText
braces_only = record {
  marshal_state = λ s. ok [];
  unmarshal =
      λ t. if text_eq t (codes "{}") then some (codes " Done", codes "all is well ") else none;
  fenced = λ t. none;
}

judge_reads :
    parse_judge_response braces_only (codes "I say {}.") ≡ (Decision.complete, codes "all is well")
unfolding parse_judge_response map_decision_string index last_index text_eq trim_space has_prefix
    to_lower
judge_reads = refl
