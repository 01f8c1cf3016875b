-- ===== src/Agent/Setup.antt =====
-- agent/agent.go: the parts of an agent, and how they are changed.
pub mod Options
pub mod Settled
pub mod Calls
pub mod Fresh
pub mod Members
pub mod Lifecycle
use simple_agent_framework.Prelude.{
  ℕ, Bool, true, false, not, ◌&&◌, if◌then◌else◌, List, [], ◌∷◌, map, Option, none, some,
}
use simple_agent_framework.Prelude.Text.{Text, is_empty}
use simple_agent_framework.Errors.{Result, ok, err}
use simple_agent_framework.Planner.{ExecutionMode}
use simple_agent_framework.Prompt as Prompt
use simple_agent_framework.Prompt.{PromptBuilder, new_builder, with_rules, with_skills}
use simple_agent_framework.Prompt.Defaults.{
  default_react_system_prompt, default_plan_and_solve_system_prompt,
}
use simple_agent_framework.Registry as Registry
use simple_agent_framework.Rule.{FileRule, RuleRegistry, add_rules}
use simple_agent_framework.Skill.{DirSkill, SkillRegistry, add_skills, remove_skill, list_skills}
use simple_agent_framework.Tool.{Tool, ToolRegistry, add_tool}

-- The field `planner`: an interface that is nil, holds the planner of the ReAct mode, or holds the
-- pointer to a plan-and-solve planner, which may be nil within an interface that is not.
pub data PlannerRef (P Q : Type 0) : Type 0 where
  unset : PlannerRef P Q
  react_ref : P → PlannerRef P Q
  plan_and_solve_ref : Option Q → PlannerRef P Q

-- `Agent`, with models in M, planners in P and Q, evaluators in E, and tools over schemas in S and the
-- world W. The executor, the hooks, the interrupter, the stores, the factories of sessions, the
-- output schema and the compression are not touched by what follows and are left out.
pub record Agent (M P Q E S W : Type 0) : Type 0 where
  pub model : Option M
  pub planner : PlannerRef P Q
  pub evaluator : Option E
  pub react_planner : Option P
  pub plan_and_solve_planner : Option Q
  pub tool_registry : ToolRegistry S W
  pub rule_registry : RuleRegistry
  pub skill_registry : SkillRegistry (Tool S W)
  pub prompt_builder : Option PromptBuilder
  pub system_prompt : Text
  pub current_mode : ExecutionMode
  pub eval_enabled : Bool
  pub max_iterations : ℕ
  pub timeout : ℕ
  pub loop_detection_threshold : ℕ
  pub tool_result_max_len : ℕ
  pub recent_tool_result_tokens : ℕ
  pub model_max_tokens : ℕ
  pub builtin_rule_view_registered : Bool
  pub builtin_skill_call_registered : Bool
  pub builtin_fetch_full_result_registered : Bool

-- What the agent makes of its model, and the built-in tools, which look at it when they are called.
pub record Builtins (M P Q S W : Type 0) : Type 0 where
  pub new_react : M → Text → P
  pub new_plan_and_solve : M → Q
  pub rule_view : Tool S W
  pub skill_call : Tool S W
  pub fetch_full_result : Tool S W

abbrev pub default_system_prompt : ExecutionMode → Text
default_system_prompt ExecutionMode.plan_and_solve = default_plan_and_solve_system_prompt
default_system_prompt ExecutionMode.react = default_react_system_prompt

abbrev rule_summary : FileRule → Prompt.Summary
rule_summary r = record {
  name = r.name;
  description = r.description;
  always_apply = r.always_apply;
  content = r.content;
}

abbrev skill_summary : {T : Type 0} → DirSkill T → Prompt.Summary
skill_summary s = record {
  name = s.name;
  description = s.description;
  always_apply = s.always_apply;
  content = s.instruction;
}

abbrev pub no_items {ℓ} : {A : Type ℓ} → List A → Bool
no_items [] = true
no_items (a ∷ l) = false

-- The planner of the mode; an interface field without a planner is nil.
abbrev pub planner_of : {P Q : Type 0} → ExecutionMode → Option P → Option Q → PlannerRef P Q
planner_of ExecutionMode.plan_and_solve react pas = PlannerRef.plan_and_solve_ref pas
planner_of ExecutionMode.react none pas = PlannerRef.unset
planner_of ExecutionMode.react (some p) pas = PlannerRef.react_ref p

abbrev pub base_prompt : Text → ExecutionMode → Text
base_prompt given mode = if is_empty given then default_system_prompt mode else given

-- The builder that `rebuildPromptBuilder` makes.
unfoldable pub fresh_builder :
    {S W : Type 0} → Text → ExecutionMode → RuleRegistry → SkillRegistry (Tool S W) → PromptBuilder
fresh_builder given mode rules skills =
    with_skills (map skill_summary (list_skills skills))
      (with_rules (map rule_summary (Registry.list rules)) (new_builder (base_prompt given mode)))

-- A planner that is set is kept; else one is made of the model, if there is a model.
abbrev or_new : {M X : Type 0} → Option X → Option M → (M → X) → Option X
or_new (some p) m make = some p
or_new none (some m) make = some (make m)
or_new none none make = none

module _ {M P Q E S W : Type 0} where
  unfoldable pub sync_planner_ref : Agent M P Q E S W → Agent M P Q E S W
  sync_planner_ref a = record a {
    planner = planner_of a.current_mode a.react_planner a.plan_and_solve_planner;
  }

  unfoldable pub rebuild_prompt_builder : Agent M P Q E S W → Agent M P Q E S W
  rebuild_prompt_builder a = record a {
    prompt_builder =
        some (fresh_builder a.system_prompt a.current_mode a.rule_registry a.skill_registry);
  }

  -- The three steps of `ensureBuiltinToolsUnlocked`.
  unfoldable pub ensure_rule_view : Tool S W → Agent M P Q E S W → Agent M P Q E S W
  ensure_rule_view t a =
      if not (no_items (Registry.list a.rule_registry)) && not a.builtin_rule_view_registered
      then record a {
        tool_registry = add_tool t a.tool_registry;
        builtin_rule_view_registered = true;
      }
      else a

  unfoldable pub ensure_skill_call : Tool S W → Agent M P Q E S W → Agent M P Q E S W
  ensure_skill_call t a =
      if not (no_items (list_skills a.skill_registry)) && not a.builtin_skill_call_registered
      then record a {
        tool_registry = add_tool t a.tool_registry;
        builtin_skill_call_registered = true;
      }
      else a

  unfoldable pub ensure_fetch_full_result : Tool S W → Agent M P Q E S W → Agent M P Q E S W
  ensure_fetch_full_result t a =
      if not a.builtin_fetch_full_result_registered
      then record a {
        tool_registry = add_tool t a.tool_registry;
        builtin_fetch_full_result_registered = true;
      }
      else a

  abbrev pub set_eval_enabled : Agent M P Q E S W → Agent M P Q E S W
  set_eval_enabled a = elim a.evaluator [ none ↦ a | some e ↦ record a { eval_enabled = true } ]

  unfoldable pub set_execution_mode : ExecutionMode → Agent M P Q E S W → Agent M P Q E S W
  set_execution_mode mode a =
      let synced = sync_planner_ref (record a { current_mode = mode }) in
      if is_empty a.system_prompt then rebuild_prompt_builder synced else synced

  unfoldable pub enable_evaluator : Option E → Agent M P Q E S W → Agent M P Q E S W
  enable_evaluator none a = record a { evaluator = none; eval_enabled = false }
  enable_evaluator (some e) a = record a { evaluator = some e; eval_enabled = true }

  unfoldable pub disable_evaluator : Agent M P Q E S W → Agent M P Q E S W
  disable_evaluator a = record a { evaluator = none; eval_enabled = false }

  unfoldable pub remove_rule : Text → Agent M P Q E S W → Agent M P Q E S W
  remove_rule name a =
      rebuild_prompt_builder (record a { rule_registry = Registry.remove name a.rule_registry })

  unfoldable pub drop_skill : Text → Agent M P Q E S W → Agent M P Q E S W
  drop_skill name a =
      rebuild_prompt_builder (record a { skill_registry = remove_skill name a.skill_registry })

  module _ (b : Builtins M P Q S W) where
    abbrev pub ensure_builtin_tools : Agent M P Q E S W → Agent M P Q E S W
    ensure_builtin_tools a =
        ensure_fetch_full_result b.fetch_full_result
          (ensure_skill_call b.skill_call (ensure_rule_view b.rule_view a))

    abbrev pub make_planners : Agent M P Q E S W → Agent M P Q E S W
    make_planners a = record a {
      react_planner = or_new a.react_planner a.model (λ m. b.new_react m a.system_prompt);
      plan_and_solve_planner = or_new a.plan_and_solve_planner a.model b.new_plan_and_solve;
    }

    unfoldable pub init : Agent M P Q E S W → Agent M P Q E S W
    init a =
        sync_planner_ref
          (ensure_builtin_tools (rebuild_prompt_builder (set_eval_enabled (make_planners a))))

    -- `Add` of rules to the registry, and what the calls of it do after.
    unfoldable pub take_rules : List (Option FileRule) → Agent M P Q E S W → Agent M P Q E S W
    take_rules rs a =
        ensure_builtin_tools
          (rebuild_prompt_builder (record a { rule_registry = add_rules rs a.rule_registry }))

    unfoldable pub take_skills :
        List (Option (DirSkill (Tool S W))) → Agent M P Q E S W → Agent M P Q E S W
    take_skills ss a =
        ensure_builtin_tools
          (rebuild_prompt_builder (record a { skill_registry = add_skills ss a.skill_registry }))

    unfoldable pub add_rule : Option FileRule → Agent M P Q E S W → Agent M P Q E S W
    add_rule r = take_rules (r ∷ [])

    unfoldable pub add_skill : Option (DirSkill (Tool S W)) → Agent M P Q E S W → Agent M P Q E S W
    add_skill s = take_skills (s ∷ [])

    -- `InjectRules` and `InjectSkills`, of what the loader returned.
    unfoldable pub inject_rules :
        Result (List (Option FileRule)) → Agent M P Q E S W → Result (Unit {0}) × Agent M P Q E S W
    inject_rules (err e) a = (err e, a)
    inject_rules (ok rs) a = (ok tt, take_rules rs a)

    unfoldable pub inject_skills :
        Result (List (Option (DirSkill (Tool S W))))
        → Agent M P Q E S W
        → Result (Unit {0}) × Agent M P Q E S W
    inject_skills (err e) a = (err e, a)
    inject_skills (ok ss) a = (ok tt, take_skills ss a)
