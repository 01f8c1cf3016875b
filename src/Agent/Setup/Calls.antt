-- ===== src/Agent/Setup/Calls.antt =====
-- agent/option.go and agent/agent.go: the options that `New` may be given, and the calls of an
-- agent's methods.
use simple_agent_framework.Prelude.{List, [], ◌∷◌, Option}
use simple_agent_framework.Prelude.Int.{ℤ}
use simple_agent_framework.Prelude.Text.{Text}
use simple_agent_framework.Errors.{Result}
use simple_agent_framework.Planner.{ExecutionMode}
use simple_agent_framework.Rule.{FileRule}
use simple_agent_framework.Skill.{DirSkill}
use simple_agent_framework.Tool.{Tool, ToolRegistry}
use simple_agent_framework.Agent.Setup.{
  Agent, Builtins, set_execution_mode, enable_evaluator, disable_evaluator, add_rule, add_skill,
  remove_rule, drop_skill, inject_rules, inject_skills,
}
use simple_agent_framework.Agent.Setup.Options as Options

-- A call of one of the methods that change an agent; the loaders' results are arguments.
pub data Call (E S W : Type 0) : Type 0 where
  set_mode : ExecutionMode → Call E S W
  enable : Option E → Call E S W
  disable : Call E S W
  rule_added : Option FileRule → Call E S W
  skill_added : Option (DirSkill (Tool S W)) → Call E S W
  rule_removed : Text → Call E S W
  skill_removed : Text → Call E S W
  rules_injected : Result (List (Option FileRule)) → Call E S W
  skills_injected : Result (List (Option (DirSkill (Tool S W)))) → Call E S W

module _ {M P Q E S W : Type 0} where
  -- An option that package agent offers.
  pub data IsOffered : (Agent M P Q E S W → Agent M P Q E S W) → Type 0 where
    model : (m : Option M) → IsOffered (Options.with_model m)
    planner : (p : Option P) → IsOffered (Options.with_planner p)
    evaluator : (e : Option E) → IsOffered (Options.with_evaluator e)
    tools : (ts : List (Option (Tool S W))) → IsOffered (Options.with_tools ts)
    tool_registry : (r : Option (ToolRegistry S W)) → IsOffered (Options.with_tool_registry r)
    rules : (rs : List (Option FileRule)) → IsOffered (Options.with_rules rs)
    rule_paths :
        (ps : List (Result (List (Option FileRule)))) → IsOffered (Options.with_rule_paths ps)
    skills : (ss : List (Option (DirSkill (Tool S W)))) → IsOffered (Options.with_skills ss)
    skill_paths :
        (ps : List (Result (List (Option (DirSkill (Tool S W))))))
        → IsOffered (Options.with_skill_paths ps)
    execution_mode : (mode : ExecutionMode) → IsOffered (Options.with_execution_mode mode)
    system_prompt : (p : Text) → IsOffered (Options.with_system_prompt p)
    max_iterations : (n : ℤ) → IsOffered (Options.with_max_iterations n)
    timeout : (n : ℤ) → IsOffered (Options.with_timeout n)
    loop_detection_threshold : (n : ℤ) → IsOffered (Options.with_loop_detection_threshold n)
    tool_result_max_len : (n : ℤ) → IsOffered (Options.with_tool_result_max_len n)
    recent_tool_result_tokens : (n : ℤ) → IsOffered (Options.with_recent_tool_result_tokens n)
    model_max_tokens : (n : ℤ) → IsOffered (Options.with_model_max_tokens n)
    metrics_handler : (wrap : Option (M → M)) → IsOffered (Options.with_metrics_handler wrap)

  abbrev pub AllOffered : List (Agent M P Q E S W → Agent M P Q E S W) → Type 0
  AllOffered [] = Unit
  AllOffered (opt ∷ opts) = IsOffered opt × AllOffered opts

  module _ (b : Builtins M P Q S W) where
    unfoldable pub perform : Call E S W → Agent M P Q E S W → Agent M P Q E S W
    perform (Call.set_mode mode) a = set_execution_mode mode a
    perform (Call.enable e) a = enable_evaluator e a
    perform Call.disable a = disable_evaluator a
    perform (Call.rule_added r) a = add_rule b r a
    perform (Call.skill_added s) a = add_skill b s a
    perform (Call.rule_removed name) a = remove_rule name a
    perform (Call.skill_removed name) a = drop_skill name a
    perform (Call.rules_injected loaded) a = (inject_rules b loaded a).1
    perform (Call.skills_injected loaded) a = (inject_skills b loaded a).1

    abbrev pub perform_all : List (Call E S W) → Agent M P Q E S W → Agent M P Q E S W
    perform_all [] a = a
    perform_all (c ∷ cs) a = perform_all cs (perform c a)
