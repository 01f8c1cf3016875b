-- ===== src/Evaluator/Judge.antt =====
-- evaluator/llm_judge.go: the evaluator that asks a model.
use simple_agent_framework.Prelude.{
  suc, ◌-◌, ltb, ◌||◌, List, [], ◌∷◌, ◌++◌, Option, none, some, if◌then◌else◌, take, drop,
}
use simple_agent_framework.Prelude.Text.{Text, codes, trim_space, to_lower, text_eq}
use simple_agent_framework.Errors.{Error, Result, Exec, ok, err}
use simple_agent_framework.Model.{ChatMessage, ChatResponse, Role, message}
use simple_agent_framework.Evaluator.{Decision, EvalState, EvalResult, Evaluator}
use simple_agent_framework.Planner.PlanAndSolve.Extract.{index, last_index}

-- What encoding/json makes of a state and of an answer, which gives the decision and the feedback, and
-- the first group of the regular expression for a fenced block.
pub record JudgeText : Type 0 where
  pub marshal_state : EvalState → Result Text
  pub unmarshal : Text → Option (Text × Text)
  pub fenced : Text → Option Text

pub record LlmJudgeEvaluator (W : Type 0) : Type 0 where
  pub model : Option (List ChatMessage → Exec W ChatResponse)
  pub prompt : Text

unfoldable pub map_decision_string : Text → Decision
map_decision_string s =
    let t = to_lower (trim_space s) in
    if text_eq t (codes "complete")
      || text_eq t (codes "done")
      || text_eq t (codes "success")
      || text_eq t (codes "finished")
    then Decision.complete
    else (if text_eq t (codes "retry") || text_eq t (codes "again")
        then Decision.retry
        else (if text_eq t (codes "escalate")
              || text_eq t (codes "human")
              || text_eq t (codes "help")
            then Decision.escalate
            else (if text_eq t (codes "replan") || text_eq t (codes "re-plan")
                then Decision.replan
                else Decision.continue)))

module _ (json : JudgeText) where
  abbrev fence_candidates : Option Text → List Text
  fence_candidates none = []
  fence_candidates (some t) = trim_space t ∷ []

  -- From the first brace to the last one, where that comes after it.
  abbrev brace_candidates : Text → List Text
  brace_candidates raw = elim (index raw (codes "{")) [
    | none ↦ []
    | some i ↦ elim (last_index raw (codes "}")) [
      | none ↦ []
      | some j ↦ if ltb i j then trim_space (take (suc j - i) (drop i raw)) ∷ [] else []
    ]
  ]

  abbrev candidates : Text → List Text
  candidates raw = fence_candidates (json.fenced raw) ++ (trim_space raw ∷ brace_candidates raw)

  abbrev first_parsed : Text → List Text → Decision × Text
  first_parsed raw [] = (Decision.continue, trim_space raw)
  first_parsed raw (c ∷ cs) = elim (json.unmarshal c) [
    | some (decision, feedback) ↦ (map_decision_string decision, trim_space feedback)
    | none ↦ first_parsed raw cs
  ]

  unfoldable pub parse_judge_response : Text → Decision × Text
  parse_judge_response raw = first_parsed raw (candidates raw)

  abbrev build_eval_state_payload : EvalState → Result Text
  build_eval_state_payload state = elim (json.marshal_state state) [
    | ok b ↦ ok (codes "Evaluation context (JSON):\n" ++ b)
    | err e ↦ err (Error.wrapping (codes "llm judge: marshal state: ") e [])
  ]

  abbrev judged : Result ChatResponse → Result EvalResult
  judged (err e) = err e
  judged (ok resp) =
      let (decision, feedback) = parse_judge_response (trim_space resp.message.content) in
      ok (record { decision = decision; feedback = feedback })

  abbrev asked :
      {W : Type 0}
      → Option (List ChatMessage → Exec W ChatResponse)
      → Text
      → Result Text
      → Exec W EvalResult
  asked none prompt payload w = (err (Error.other (codes "llm judge: model is nil")), w)
  asked (some generate) prompt (err e) w = (err e, w)
  asked (some generate) prompt (ok payload) w =
      let (answer, w') = generate (message Role.system prompt ∷ message Role.user payload ∷ []) w in
      (judged answer, w')

  unfoldable pub evaluate_judge : {W : Type 0} → LlmJudgeEvaluator W → Evaluator W
  unfolding parse_judge_response
  evaluate_judge e state = asked e.model e.prompt (build_eval_state_payload state)
