-- ===== src/Tests/Setup.antt =====
-- An agent and its prompt on small inputs.
use simple_agent_framework.Prelude.{ℕ, ◌≡◌, map, false, List, [], ◌∷◌, none, some}
use simple_agent_framework.Prelude.Int.{pos}
use simple_agent_framework.Prelude.Text.{Text, codes}
use simple_agent_framework.Errors.{Error, err, pure}
use simple_agent_framework.Planner.{ExecutionMode}
use simple_agent_framework.Rule.{FileRule, new_file_rule}
use simple_agent_framework.Skill.{new_dir_skill}
use simple_agent_framework.Tool.{Tool, func_tool}
use simple_agent_framework.Prompt.{Summary, PromptBuilder, build}
use simple_agent_framework.Prompt.Disclosure.{visible, build-visible}
use simple_agent_framework.Agent.Setup.{Agent, Builtins}
use simple_agent_framework.Agent.Setup.Options as Options
use simple_agent_framework.Agent.Setup.Options.{new_agent}
use simple_agent_framework.Agent.Setup.Settled.{IsSettled}
use simple_agent_framework.Agent.Setup.Calls.{Call, IsOffered, perform_all}
use simple_agent_framework.Agent.Setup.Lifecycle.{lifecycle-IsSettled}

abbrev silent : Text → Tool ℕ ℕ
silent name = func_tool name [] none (λ input. pure name)

-- Models and evaluators are numbers, and a planner is the number of its model.
abbrev numbered : Builtins ℕ ℕ ℕ ℕ ℕ
numbered = record {
  new_react = λ m prompt. m;
  new_plan_and_solve = λ m. m;
  rule_view = silent (codes "rule_view");
  skill_call = silent (codes "skill_call");
  fetch_full_result = silent (codes "fetch_full_result");
}

abbrev be_kind : FileRule
be_kind = new_file_rule (codes "tone") (codes "how to speak") (codes "be kind") false

abbrev given : List (Agent ℕ ℕ ℕ ℕ ℕ ℕ → Agent ℕ ℕ ℕ ℕ ℕ ℕ)
given =
    Options.with_model (some 7)
    ∷ Options.with_rules (some be_kind ∷ none ∷ [])
    ∷ Options.with_max_iterations (pos 4)
    ∷ []

abbrev asked : List (Call ℕ ℕ ℕ)
asked =
    Call.set_mode ExecutionMode.plan_and_solve
    ∷ Call.enable (some 3)
    ∷ Call.skill_added (some (new_dir_skill (codes "s") [] [] [] []))
    ∷ Call.rule_removed (codes "tone")
    ∷ Call.rules_injected (err Error.not_exist)
    ∷ []

lifecycle-IsSettled_example :
    IsSettled numbered (perform_all numbered asked (new_agent numbered given))
lifecycle-IsSettled_example = lifecycle-IsSettled numbered given asked (
  IsOffered.model (some 7),
  (IsOffered.rules (some be_kind ∷ none ∷ []), (IsOffered.max_iterations (pos 4), tt)),
)

abbrev on_demand : Summary
on_demand = record {
  name = codes "tone";
  description = codes "how to speak";
  always_apply = false;
  content = codes "be kind";
}

abbrev one_rule : PromptBuilder
one_rule = record { base = codes "Act."; rules = on_demand ∷ []; skills = []; sections = [] }

build-visible_example :
    (build
      (λ t. t)
      (λ l. l)
      (record one_rule { rules = map visible one_rule.rules; skills = [] })).0
    ≡ (build (λ t. t) (λ l. l) one_rule).0
build-visible_example = build-visible (λ t. t) (λ l. l) one_rule
