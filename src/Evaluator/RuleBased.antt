-- ===== src/Evaluator/RuleBased.antt =====
-- evaluator/rule_based.go and evaluator/noop.go: the evaluators that ask rules, and nobody.
use simple_agent_framework.Prelude.{
  Bool, true, false, List, [], ◌∷◌, Option, none, some, if◌then◌else◌,
}
use simple_agent_framework.Errors.{Result, Exec, ok, err}
use simple_agent_framework.Evaluator.{Decision, EvalState, EvalResult, Evaluator}

-- `RuleFunc`, whose result may be nil.
abbrev pub RuleFunc : Type 0 → Type 0
RuleFunc W = EvalState → Exec W (Option EvalResult)

abbrev pub continues : EvalResult
continues = record { decision = Decision.continue; feedback = [] }

abbrev pub is_continue : Decision → Bool
is_continue Decision.continue = true
is_continue _ = false

-- What follows an answer of a rule, with what the rules after it would say.
abbrev after_rule :
    {W : Type 0} → Result (Option EvalResult) → W → Result EvalResult × W → Result EvalResult × W
after_rule (err e) w rest = (err e, w)
after_rule (ok none) w rest = rest
after_rule (ok (some res)) w rest = if is_continue res.decision then rest else (ok res, w)

unfoldable pub evaluate_rules : {W : Type 0} → List (RuleFunc W) → Evaluator W
evaluate_rules [] state w = (ok continues, w)
evaluate_rules (rule ∷ rules) state w =
    let (answer, w') = rule state w in after_rule answer w' (evaluate_rules rules state w')

-- `NoopEvaluator`
unfoldable pub evaluate_noop : {W : Type 0} → Evaluator W
evaluate_noop state w = (ok continues, w)
