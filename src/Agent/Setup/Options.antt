-- ===== src/Agent/Setup/Options.antt =====
-- agent/option.go: the options of `New`.
use simple_agent_framework.Prelude.{ℕ, suc, true, false, List, [], ◌∷◌, Option, none, some}
use simple_agent_framework.Prelude.Int.{ℤ, pos}
use simple_agent_framework.Prelude.Text.{Text}
use simple_agent_framework.Errors.{Result, ok, err}
use simple_agent_framework.Planner.{ExecutionMode}
use simple_agent_framework.Rule.{FileRule, new_rules, add_rules}
use simple_agent_framework.Skill.{DirSkill, add_skills}
use simple_agent_framework.Tool.{Tool, ToolRegistry, new_tool_registry, add_tool}
use simple_agent_framework.Registry.{new_registry}
use simple_agent_framework.Memory.Compressor.{
  default_tool_result_max_len, default_recent_tool_result_tokens,
}
use simple_agent_framework.Agent.Setup.{Agent, PlannerRef, Builtins, init}

-- `if n > 0 { field = n }`
abbrev pub if_positive : ℤ → ℕ → ℕ
if_positive (pos (suc n)) old = suc n
if_positive _ old = old

-- A nil tool is passed over.
abbrev add_tools : {S W : Type 0} → List (Option (Tool S W)) → ToolRegistry S W → ToolRegistry S W
add_tools [] r = r
add_tools (none ∷ ts) r = add_tools ts r
add_tools (some t ∷ ts) r = add_tools ts (add_tool t r)

module _ {M P Q E S W : Type 0} where
  -- The agent that `New` starts from; `timeout` is in nanoseconds.
  unfoldable pub blank_agent : Agent M P Q E S W
  blank_agent = record {
    model = none;
    planner = PlannerRef.unset;
    evaluator = none;
    react_planner = none;
    plan_and_solve_planner = none;
    tool_registry = new_tool_registry;
    rule_registry = new_rules;
    skill_registry = new_registry;
    prompt_builder = none;
    system_prompt = [];
    current_mode = ExecutionMode.react;
    eval_enabled = false;
    max_iterations = 10;
    timeout = 300000000000;
    loop_detection_threshold = 3;
    tool_result_max_len = default_tool_result_max_len;
    recent_tool_result_tokens = default_recent_tool_result_tokens;
    model_max_tokens = 128000;
    builtin_rule_view_registered = false;
    builtin_skill_call_registered = false;
    builtin_fetch_full_result_registered = false;
  }

  unfoldable pub with_model : Option M → Agent M P Q E S W → Agent M P Q E S W
  with_model m a = record a { model = m }

  unfoldable pub with_planner : Option P → Agent M P Q E S W → Agent M P Q E S W
  with_planner p a = record a { react_planner = p }

  unfoldable pub with_evaluator : Option E → Agent M P Q E S W → Agent M P Q E S W
  with_evaluator none a = record a { evaluator = none; eval_enabled = false }
  with_evaluator (some e) a = record a { evaluator = some e; eval_enabled = true }

  unfoldable pub with_tools : List (Option (Tool S W)) → Agent M P Q E S W → Agent M P Q E S W
  with_tools ts a = record a { tool_registry = add_tools ts a.tool_registry }

  unfoldable pub with_tool_registry :
      Option (ToolRegistry S W) → Agent M P Q E S W → Agent M P Q E S W
  with_tool_registry none a = a
  with_tool_registry (some r) a = record a { tool_registry = r }

  unfoldable pub with_rules : List (Option FileRule) → Agent M P Q E S W → Agent M P Q E S W
  with_rules rs a = record a { rule_registry = add_rules rs a.rule_registry }

  -- What the loader returns for each path; a path that fails is passed over.
  unfoldable pub with_rule_paths :
      List (Result (List (Option FileRule))) → Agent M P Q E S W → Agent M P Q E S W
  with_rule_paths [] a = a
  with_rule_paths (err e ∷ ps) a = with_rule_paths ps a
  with_rule_paths (ok rs ∷ ps) a =
      with_rule_paths ps (record a { rule_registry = add_rules rs a.rule_registry })

  unfoldable pub with_skills :
      List (Option (DirSkill (Tool S W))) → Agent M P Q E S W → Agent M P Q E S W
  with_skills ss a = record a { skill_registry = add_skills ss a.skill_registry }

  unfoldable pub with_skill_paths :
      List (Result (List (Option (DirSkill (Tool S W))))) → Agent M P Q E S W → Agent M P Q E S W
  with_skill_paths [] a = a
  with_skill_paths (err e ∷ ps) a = with_skill_paths ps a
  with_skill_paths (ok ss ∷ ps) a =
      with_skill_paths ps (record a { skill_registry = add_skills ss a.skill_registry })

  unfoldable pub with_execution_mode : ExecutionMode → Agent M P Q E S W → Agent M P Q E S W
  with_execution_mode mode a = record a { current_mode = mode }

  unfoldable pub with_system_prompt : Text → Agent M P Q E S W → Agent M P Q E S W
  with_system_prompt p a = record a { system_prompt = p }

  unfoldable pub with_max_iterations : ℤ → Agent M P Q E S W → Agent M P Q E S W
  with_max_iterations n a = record a { max_iterations = if_positive n a.max_iterations }

  unfoldable pub with_timeout : ℤ → Agent M P Q E S W → Agent M P Q E S W
  with_timeout n a = record a { timeout = if_positive n a.timeout }

  unfoldable pub with_loop_detection_threshold : ℤ → Agent M P Q E S W → Agent M P Q E S W
  with_loop_detection_threshold n a = record a {
    loop_detection_threshold = if_positive n a.loop_detection_threshold;
  }

  unfoldable pub with_tool_result_max_len : ℤ → Agent M P Q E S W → Agent M P Q E S W
  with_tool_result_max_len n a = record a {
    tool_result_max_len = if_positive n a.tool_result_max_len;
  }

  unfoldable pub with_recent_tool_result_tokens : ℤ → Agent M P Q E S W → Agent M P Q E S W
  with_recent_tool_result_tokens n a = record a {
    recent_tool_result_tokens = if_positive n a.recent_tool_result_tokens;
  }

  unfoldable pub with_model_max_tokens : ℤ → Agent M P Q E S W → Agent M P Q E S W
  with_model_max_tokens n a = record a { model_max_tokens = if_positive n a.model_max_tokens }

  -- `wrap` is `model.WrapWithMetrics` for the given name and handler; `none` stands for a nil handler.
  unfoldable pub with_metrics_handler : Option (M → M) → Agent M P Q E S W → Agent M P Q E S W
  with_metrics_handler none a = a
  with_metrics_handler (some wrap) a = elim a.model [
    | none ↦ a
    | some m ↦ record a { model = some (wrap m) }
  ]

  abbrev pub apply_options :
      List (Agent M P Q E S W → Agent M P Q E S W) → Agent M P Q E S W → Agent M P Q E S W
  apply_options [] a = a
  apply_options (opt ∷ opts) a = apply_options opts (opt a)

  unfoldable pub new_agent :
      Builtins M P Q S W → List (Agent M P Q E S W → Agent M P Q E S W) → Agent M P Q E S W
  new_agent b opts = init b (apply_options opts blank_agent)
