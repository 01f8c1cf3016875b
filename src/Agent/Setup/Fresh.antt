-- ===== src/Agent/Setup/Fresh.antt =====
-- agent/option.go: what the options of `New` leave as it is at first.
use simple_agent_framework.Prelude.{
  ◌≡◌, refl, Bool, false, List, [], ◌∷◌, Option, none, some, Option-cases, inl, inr,
}
use simple_agent_framework.Errors.{Result, ok, err}
use simple_agent_framework.Registry.Dictionary.{IsValid, new-IsValid, has_value}
use simple_agent_framework.Registry.Refine.{add-refines}
use simple_agent_framework.Rule.{FileRule, RuleRegistry, rule_name, new_rules, add_rules}
use simple_agent_framework.Skill.{DirSkill, SkillRegistry, skill_name, add_skills}
use simple_agent_framework.Tool.{Tool}
use simple_agent_framework.Agent.Setup.{Agent}
use simple_agent_framework.Agent.Setup.Options as Options
use simple_agent_framework.Agent.Setup.Options.{blank_agent, apply_options, new_agent}
use simple_agent_framework.Agent.Setup.Calls.{IsOffered, AllOffered}

-- What the options leave as it is at first: valid registries, and no built-in tool.
pub record FreshParts {T E : Type 0} (rules : RuleRegistry) (skills : SkillRegistry T)
    (view call fetch eval : Bool) (evaluator : Option E) : Type 0 where
  pub rules_valid : IsValid rule_name rules
  pub skills_valid : IsValid skill_name skills
  pub no_view : view ≡ false
  pub no_call : call ≡ false
  pub no_fetch : fetch ≡ false
  pub eval_present : eval ≡ has_value evaluator

module _ {M P Q E S W : Type 0} where
  abbrev pub IsFresh : Agent M P Q E S W → Type 0
  IsFresh a =
      FreshParts a.rule_registry a.skill_registry a.builtin_rule_view_registered
        a.builtin_skill_call_registered a.builtin_fetch_full_result_registered a.eval_enabled
        a.evaluator

  add_rules-IsFresh :
      (rs : List (Option FileRule)) (a : Agent M P Q E S W)
      → IsFresh a
      → IsFresh (record a { rule_registry = add_rules rs a.rule_registry })
  unfolding add_rules
  add_rules-IsFresh rs a f = record {
    rules_valid = (add-refines rule_name rs a.rule_registry f.rules_valid).0;
    skills_valid = f.skills_valid;
    no_view = f.no_view;
    no_call = f.no_call;
    no_fetch = f.no_fetch;
    eval_present = f.eval_present;
  }

  add_skills-IsFresh :
      (ss : List (Option (DirSkill (Tool S W)))) (a : Agent M P Q E S W)
      → IsFresh a
      → IsFresh (record a { skill_registry = add_skills ss a.skill_registry })
  unfolding add_skills
  add_skills-IsFresh ss a f = record {
    rules_valid = f.rules_valid;
    skills_valid = (add-refines skill_name ss a.skill_registry f.skills_valid).0;
    no_view = f.no_view;
    no_call = f.no_call;
    no_fetch = f.no_fetch;
    eval_present = f.eval_present;
  }

  rule_paths-IsFresh :
      (ps : List (Result (List (Option FileRule)))) (a : Agent M P Q E S W)
      → IsFresh a
      → IsFresh (Options.with_rule_paths ps a)
  unfolding Options.with_rule_paths
  rule_paths-IsFresh [] a f = f
  rule_paths-IsFresh (err e ∷ ps) a f = rule_paths-IsFresh ps a f
  rule_paths-IsFresh (ok rs ∷ ps) a f =
      rule_paths-IsFresh ps (record a { rule_registry = add_rules rs a.rule_registry })
        (add_rules-IsFresh rs a f)

  skill_paths-IsFresh :
      (ps : List (Result (List (Option (DirSkill (Tool S W)))))) (a : Agent M P Q E S W)
      → IsFresh a
      → IsFresh (Options.with_skill_paths ps a)
  unfolding Options.with_skill_paths
  skill_paths-IsFresh [] a f = f
  skill_paths-IsFresh (err e ∷ ps) a f = skill_paths-IsFresh ps a f
  skill_paths-IsFresh (ok ss ∷ ps) a f =
      skill_paths-IsFresh ps (record a { skill_registry = add_skills ss a.skill_registry })
        (add_skills-IsFresh ss a f)

  option-IsFresh :
      {opt : Agent M P Q E S W → Agent M P Q E S W}
      → IsOffered opt
      → (a : Agent M P Q E S W) → IsFresh a
      → IsFresh (opt a)
  unfolding Options.with_model Options.with_planner Options.with_evaluator Options.with_tools
      Options.with_tool_registry Options.with_rules Options.with_skills Options.with_execution_mode
      Options.with_system_prompt Options.with_max_iterations Options.with_timeout
      Options.with_loop_detection_threshold Options.with_tool_result_max_len
      Options.with_recent_tool_result_tokens Options.with_model_max_tokens
      Options.with_metrics_handler
  option-IsFresh (IsOffered.model m) a f = f
  option-IsFresh (IsOffered.planner p) a f = f
  option-IsFresh (IsOffered.evaluator none) a f = record {
    rules_valid = f.rules_valid;
    skills_valid = f.skills_valid;
    no_view = f.no_view;
    no_call = f.no_call;
    no_fetch = f.no_fetch;
    eval_present = refl;
  }
  option-IsFresh (IsOffered.evaluator (some e)) a f = record {
    rules_valid = f.rules_valid;
    skills_valid = f.skills_valid;
    no_view = f.no_view;
    no_call = f.no_call;
    no_fetch = f.no_fetch;
    eval_present = refl;
  }
  option-IsFresh (IsOffered.tools ts) a f = f
  option-IsFresh (IsOffered.tool_registry none) a f = f
  option-IsFresh (IsOffered.tool_registry (some r)) a f = f
  option-IsFresh (IsOffered.rules rs) a f = add_rules-IsFresh rs a f
  option-IsFresh (IsOffered.rule_paths ps) a f = rule_paths-IsFresh ps a f
  option-IsFresh (IsOffered.skills ss) a f = add_skills-IsFresh ss a f
  option-IsFresh (IsOffered.skill_paths ps) a f = skill_paths-IsFresh ps a f
  option-IsFresh (IsOffered.execution_mode mode) a f = f
  option-IsFresh (IsOffered.system_prompt p) a f = f
  option-IsFresh (IsOffered.max_iterations n) a f = f
  option-IsFresh (IsOffered.timeout n) a f = f
  option-IsFresh (IsOffered.loop_detection_threshold n) a f = f
  option-IsFresh (IsOffered.tool_result_max_len n) a f = f
  option-IsFresh (IsOffered.recent_tool_result_tokens n) a f = f
  option-IsFresh (IsOffered.model_max_tokens n) a f = f
  option-IsFresh (IsOffered.metrics_handler none) a f = f
  option-IsFresh (IsOffered.metrics_handler (some wrap)) a f = elim (Option-cases a.model) [
    | inl none_given ↦ rw none_given f
    | inr (m, given) ↦ rw given f
  ]

  options-IsFresh :
      (opts : List (Agent M P Q E S W → Agent M P Q E S W)) (a : Agent M P Q E S W)
      → AllOffered opts
      → IsFresh a
      → IsFresh (apply_options opts a)
  options-IsFresh [] a o f = f
  options-IsFresh (opt ∷ opts) a o f = options-IsFresh opts (opt a) o.1 (option-IsFresh o.0 a f)

  -- What `New` hands to `init`.
  pub given-IsFresh :
      (opts : List (Agent M P Q E S W → Agent M P Q E S W))
      → AllOffered opts
      → IsFresh (apply_options opts blank_agent)
  unfolding blank_agent new_rules
  given-IsFresh opts o = options-IsFresh opts blank_agent o (record {
    rules_valid = new-IsValid rule_name;
    skills_valid = new-IsValid skill_name;
    no_view = refl;
    no_call = refl;
    no_fetch = refl;
    eval_present = refl;
  })
