-- ===== src/Agent/Setup/Settled.antt =====
-- agent/agent.go: what it means that an agent is settled, and the step that registers built-in tools.
use simple_agent_framework.Prelude.{
  ◌≡◌, ap, sym, ◌∙◌, Bool, true, not, ◌&&◌, ◌||◌, Option, some, Bool-cases, inl, inr, arith,
}
use simple_agent_framework.Prelude.Text.{Text, text_eq_refl}
use simple_agent_framework.Registry as Registry
use simple_agent_framework.Registry.Dictionary.{IsValid, has_value}
use simple_agent_framework.Rule.{RuleRegistry, rule_name}
use simple_agent_framework.Skill.{SkillRegistry, skill_name, list_skills}
use simple_agent_framework.Tool.{Tool, ToolRegistry, add_tool}
use simple_agent_framework.Tool.Latest.{add_tool-table}
use simple_agent_framework.Agent.Setup.{
  Agent, Builtins, planner_of, fresh_builder, no_items, ensure_rule_view, ensure_skill_call,
  ensure_fetch_full_result, ensure_builtin_tools,
}

-- The tools that the rules and skills need are there.
pub record EquippedParts {T : Type 0} (rules : RuleRegistry) (skills : SkillRegistry T)
    (view call fetch : Bool) : Type 0 where
  pub viewable : (no_items (Registry.list rules) || view) ≡ true
  pub invocable : (no_items (list_skills skills) || call) ≡ true
  pub fetchable : fetch ≡ true

module _ {S W : Type 0} where
  -- A tool that is added can be called, and no other is lost.
  added-callable :
      (t : Tool S W) (r : ToolRegistry S W) → has_value ((add_tool t r).table t.name) ≡ true
  added-callable t r = rw (add_tool-table t r t.name, text_eq_refl t.name)

  kept-callable :
      (t : Tool S W) (r : ToolRegistry S W) (n : Text) (flag : Bool)
      → (flag || has_value (r.table n)) ≡ true
      → (flag || has_value ((add_tool t r).table n)) ≡ true
  kept-callable t r n flag h = rw (add_tool-table t r n) (ground arith)

module _ {M P Q E S W : Type 0} (b : Builtins M P Q S W) where
  -- The registries are valid, a built-in tool whose flag is set can be called, and the evaluation is
  -- on where there is an evaluator. A statement about these parts of an agent, so that it is the same
  -- statement of two agents that differ elsewhere.
  pub record SoundParts (tools : ToolRegistry S W) (rules : RuleRegistry)
      (skills : SkillRegistry (Tool S W)) (view call fetch eval : Bool) (evaluator : Option E)
      : Type 0 where
    pub rules_valid : IsValid rule_name rules
    pub skills_valid : IsValid skill_name skills
    pub rule_view_kept : (not view || has_value (tools.table b.rule_view.name)) ≡ true
    pub skill_call_kept : (not call || has_value (tools.table b.skill_call.name)) ≡ true
    pub fetch_kept : (not fetch || has_value (tools.table b.fetch_full_result.name)) ≡ true
    pub eval_present : eval ≡ has_value evaluator

  abbrev pub IsSound : Agent M P Q E S W → Type 0
  IsSound a =
      SoundParts a.tool_registry a.rule_registry a.skill_registry a.builtin_rule_view_registered
        a.builtin_skill_call_registered a.builtin_fetch_full_result_registered a.eval_enabled
        a.evaluator

  abbrev pub IsEquipped : Agent M P Q E S W → Type 0
  IsEquipped a =
      EquippedParts a.rule_registry a.skill_registry a.builtin_rule_view_registered
        a.builtin_skill_call_registered a.builtin_fetch_full_result_registered

  -- Between the calls of its methods, the planner of an agent is that of its mode, and the prompt
  -- builder is the one of its mode, rules and skills.
  pub record IsSettled (a : Agent M P Q E S W) : Type 0 where
    pub sound : IsSound a
    pub equipped : IsEquipped a
    pub in_mode : a.planner ≡ planner_of a.current_mode a.react_planner a.plan_and_solve_planner
    pub current :
        a.prompt_builder
        ≡ some (fresh_builder a.system_prompt a.current_mode a.rule_registry a.skill_registry)

  rule_view-IsSound : (a : Agent M P Q E S W) → IsSound a → IsSound (ensure_rule_view b.rule_view a)
  unfolding ensure_rule_view
  rule_view-IsSound a s =
      elim (Bool-cases
        (not (no_items (Registry.list a.rule_registry)) && not a.builtin_rule_view_registered)) [
          | inl needed ↦
              rw (ensure_rule_view, needed)
                (record {
                  rules_valid = s.rules_valid;
                  skills_valid = s.skills_valid;
                  rule_view_kept = added-callable b.rule_view a.tool_registry;
                  skill_call_kept = kept-callable b.rule_view a.tool_registry _ _ s.skill_call_kept;
                  fetch_kept = kept-callable b.rule_view a.tool_registry _ _ s.fetch_kept;
                  eval_present = s.eval_present;
                })
          | inr idle ↦ rw (ensure_rule_view, idle) s
        ]

  skill_call-IsSound :
      (a : Agent M P Q E S W) → IsSound a → IsSound (ensure_skill_call b.skill_call a)
  unfolding ensure_skill_call
  skill_call-IsSound a s =
      elim (Bool-cases
        (not (no_items (list_skills a.skill_registry)) && not a.builtin_skill_call_registered)) [
          | inl needed ↦
              rw (ensure_skill_call, needed)
                (record {
                  rules_valid = s.rules_valid;
                  skills_valid = s.skills_valid;
                  rule_view_kept = kept-callable b.skill_call a.tool_registry _ _ s.rule_view_kept;
                  skill_call_kept = added-callable b.skill_call a.tool_registry;
                  fetch_kept = kept-callable b.skill_call a.tool_registry _ _ s.fetch_kept;
                  eval_present = s.eval_present;
                })
          | inr idle ↦ rw (ensure_skill_call, idle) s
        ]

  fetch-IsSound :
      (a : Agent M P Q E S W) → IsSound a → IsSound (ensure_fetch_full_result b.fetch_full_result a)
  unfolding ensure_fetch_full_result
  fetch-IsSound a s = elim (Bool-cases (not a.builtin_fetch_full_result_registered)) [
    | inl needed ↦
        rw (ensure_fetch_full_result, needed)
          (record {
            rules_valid = s.rules_valid;
            skills_valid = s.skills_valid;
            rule_view_kept = kept-callable b.fetch_full_result a.tool_registry _ _ s.rule_view_kept;
            skill_call_kept =
                kept-callable b.fetch_full_result a.tool_registry _ _ s.skill_call_kept;
            fetch_kept = added-callable b.fetch_full_result a.tool_registry;
            eval_present = s.eval_present;
          })
    | inr idle ↦ rw (ensure_fetch_full_result, idle) s
  ]

  pub ensured-IsSound : (a : Agent M P Q E S W) → IsSound a → IsSound (ensure_builtin_tools b a)
  ensured-IsSound a s =
      fetch-IsSound (ensure_skill_call b.skill_call (ensure_rule_view b.rule_view a))
        (skill_call-IsSound (ensure_rule_view b.rule_view a) (rule_view-IsSound a s))

  pub ensured-IsEquipped : (a : Agent M P Q E S W) → IsEquipped (ensure_builtin_tools b a)
  unfolding ensure_rule_view ensure_skill_call ensure_fetch_full_result
  ensured-IsEquipped a = record {
    viewable = ground arith;
    invocable = ground arith;
    fetchable = ground arith;
  }

  -- All but the tools and their flags stays.
  pub record Kept (a a' : Agent M P Q E S W) : Type 0 where
    pub builder : a'.prompt_builder ≡ a.prompt_builder
    pub prompt :
        fresh_builder a'.system_prompt a'.current_mode a'.rule_registry a'.skill_registry
        ≡ fresh_builder a.system_prompt a.current_mode a.rule_registry a.skill_registry
    pub planner_kept : a'.planner ≡ a.planner
    pub planners :
        planner_of a'.current_mode a'.react_planner a'.plan_and_solve_planner
        ≡ planner_of a.current_mode a.react_planner a.plan_and_solve_planner

  pub ensured-Kept : (a : Agent M P Q E S W) → Kept a (ensure_builtin_tools b a)
  unfolding ensure_rule_view ensure_skill_call ensure_fetch_full_result
  ensured-Kept a = record {
    builder = ground arith;
    prompt = ground arith;
    planner_kept = ground arith;
    planners = ground arith;
  }

  -- With the planner and the prompt of the agent at hand, the built-in tools are all that lacks.
  pub ensured-IsSettled :
      (a : Agent M P Q E S W)
      → IsSound a
      → a.planner ≡ planner_of a.current_mode a.react_planner a.plan_and_solve_planner
      → a.prompt_builder
        ≡ some (fresh_builder a.system_prompt a.current_mode a.rule_registry a.skill_registry)
      → IsSettled (ensure_builtin_tools b a)
  ensured-IsSettled a s in_mode current =
      let k = ensured-Kept a in
      record {
        sound = ensured-IsSound a s;
        equipped = ensured-IsEquipped a;
        in_mode = k.planner_kept ∙ in_mode ∙ sym k.planners;
        current = k.builder ∙ current ∙ ap some (sym k.prompt);
      }
