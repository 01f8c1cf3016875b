-- ===== src/Agent/Setup/Lifecycle.antt =====
-- agent/agent.go and agent/option.go: an agent is settled whatever it was made of and whatever was
-- called.
use simple_agent_framework.Prelude.{
  ◌≡◌, refl, if◌then◌else◌, ap, sym, ◌∙◌, Bool, true, false, List, [], ◌∷◌, Option, none, some,
  Option-cases, inl, inr,
}
use simple_agent_framework.Prelude.Text.{Text, is_empty}
use simple_agent_framework.Errors.{ok, err}
use simple_agent_framework.Planner.{ExecutionMode}
use simple_agent_framework.Registry.Dictionary.{has_value}
use simple_agent_framework.Rule.{RuleRegistry}
use simple_agent_framework.Skill.{SkillRegistry}
use simple_agent_framework.Tool.{Tool}
use simple_agent_framework.Agent.Setup.{
  Agent, Builtins, fresh_builder, sync_planner_ref, rebuild_prompt_builder, set_eval_enabled,
  make_planners, init, set_execution_mode, enable_evaluator, disable_evaluator, add_rule, add_skill,
  inject_rules, inject_skills,
}
use simple_agent_framework.Agent.Setup.Settled.{
  IsSound, IsSettled, ensured-IsSound, ensured-IsEquipped, ensured-Kept,
}
use simple_agent_framework.Agent.Setup.Members.{
  take_rules-IsSettled, take_skills-IsSettled, remove_rule-IsSettled, drop_skill-IsSettled,
}
use simple_agent_framework.Agent.Setup.Options.{blank_agent, apply_options, new_agent}
use simple_agent_framework.Agent.Setup.Calls.{Call, AllOffered, perform, perform_all}
use simple_agent_framework.Agent.Setup.Fresh.{IsFresh, given-IsFresh}

-- A prompt that is given does not depend on the mode.
fresh_builder-given :
    {S W : Type 0} (given : Text) (mode mode' : ExecutionMode) (rules : RuleRegistry)
    (skills : SkillRegistry (Tool S W))
    → is_empty given ≡ false
    → fresh_builder given mode rules skills ≡ fresh_builder given mode' rules skills
unfolding fresh_builder
fresh_builder-given given mode mode' rules skills h = rw (fresh_builder, h)

module _ {M P Q E S W : Type 0} where
  module _ (b : Builtins M P Q S W) where
    -- The agent that `init` gives the built-in tools.
    abbrev before_tools : Agent M P Q E S W → Agent M P Q E S W
    before_tools a = rebuild_prompt_builder (set_eval_enabled (make_planners b a))

    before_tools-IsSound : (a : Agent M P Q E S W) → IsFresh a → IsSound b (before_tools a)
    unfolding rebuild_prompt_builder
    before_tools-IsSound a f = elim (Option-cases a.evaluator) [
      | inl absent ↦
          rw (set_eval_enabled, absent)
            (record {
              rules_valid = f.rules_valid;
              skills_valid = f.skills_valid;
              rule_view_kept = rw f.no_view;
              skill_call_kept = rw f.no_call;
              fetch_kept = rw f.no_fetch;
              eval_present = f.eval_present;
            })
      | inr (e, present) ↦
          rw (set_eval_enabled, present)
            (record {
              rules_valid = f.rules_valid;
              skills_valid = f.skills_valid;
              rule_view_kept = rw f.no_view;
              skill_call_kept = rw f.no_call;
              fetch_kept = rw f.no_fetch;
              eval_present = sym (ap has_value present);
            })
    ]

    init-IsSettled : (a : Agent M P Q E S W) → IsFresh a → IsSettled b (init b a)
    unfolding init sync_planner_ref rebuild_prompt_builder
    init-IsSettled a f =
        let k = ensured-Kept b (before_tools a) in
        record {
          sound = ensured-IsSound b (before_tools a) (before_tools-IsSound a f);
          equipped = ensured-IsEquipped b (before_tools a);
          in_mode = refl;
          current = k.builder ∙ ap some (sym k.prompt);
        }

    either-IsSettled :
        (test : Bool) (x y : Agent M P Q E S W)
        → (test ≡ true → IsSettled b x)
        → (test ≡ false → IsSettled b y)
        → IsSettled b (if test then x else y)
    either-IsSettled true x y yes_case no_case = yes_case refl
    either-IsSettled false x y yes_case no_case = no_case refl

    -- Another mode changes the prompt only where the agent was given none.
    set_mode-IsSettled :
        (mode : ExecutionMode) (a : Agent M P Q E S W)
        → IsSettled b a
        → IsSettled b (set_execution_mode mode a)
    unfolding set_execution_mode sync_planner_ref rebuild_prompt_builder
    set_mode-IsSettled mode a s =
        let synced = sync_planner_ref (record a { current_mode = mode }) in
        either-IsSettled (is_empty a.system_prompt) (rebuild_prompt_builder synced) synced
          (λ bare. record {
            sound = s.sound;
            equipped = s.equipped;
            in_mode = refl;
            current = refl;
          })
          (λ given. record {
            sound = s.sound;
            equipped = s.equipped;
            in_mode = refl;
            current =
                s.current
                ∙ ap some (
                    fresh_builder-given a.system_prompt a.current_mode mode a.rule_registry
                      a.skill_registry given);
          })

    evaluator-IsSettled :
        (e : Option E) (a : Agent M P Q E S W) → IsSettled b a → IsSettled b (enable_evaluator e a)
    unfolding enable_evaluator
    evaluator-IsSettled none a s = record {
      sound = record {
        rules_valid = s.sound.rules_valid;
        skills_valid = s.sound.skills_valid;
        rule_view_kept = s.sound.rule_view_kept;
        skill_call_kept = s.sound.skill_call_kept;
        fetch_kept = s.sound.fetch_kept;
        eval_present = refl;
      };
      equipped = s.equipped;
      in_mode = s.in_mode;
      current = s.current;
    }
    evaluator-IsSettled (some e) a s = record {
      sound = record {
        rules_valid = s.sound.rules_valid;
        skills_valid = s.sound.skills_valid;
        rule_view_kept = s.sound.rule_view_kept;
        skill_call_kept = s.sound.skill_call_kept;
        fetch_kept = s.sound.fetch_kept;
        eval_present = refl;
      };
      equipped = s.equipped;
      in_mode = s.in_mode;
      current = s.current;
    }

    call-IsSettled :
        (c : Call E S W) (a : Agent M P Q E S W) → IsSettled b a → IsSettled b (perform b c a)
    unfolding perform add_rule add_skill inject_rules inject_skills disable_evaluator
        enable_evaluator
    call-IsSettled (Call.set_mode mode) a s = set_mode-IsSettled mode a s
    call-IsSettled (Call.enable e) a s = evaluator-IsSettled e a s
    call-IsSettled Call.disable a s = evaluator-IsSettled none a s
    call-IsSettled (Call.rule_added r) a s = take_rules-IsSettled b (r ∷ []) a s
    call-IsSettled (Call.skill_added k) a s = take_skills-IsSettled b (k ∷ []) a s
    call-IsSettled (Call.rule_removed name) a s = remove_rule-IsSettled b name a s
    call-IsSettled (Call.skill_removed name) a s = drop_skill-IsSettled b name a s
    call-IsSettled (Call.rules_injected (err e)) a s = s
    call-IsSettled (Call.rules_injected (ok rs)) a s = take_rules-IsSettled b rs a s
    call-IsSettled (Call.skills_injected (err e)) a s = s
    call-IsSettled (Call.skills_injected (ok ss)) a s = take_skills-IsSettled b ss a s

    calls-IsSettled :
        (cs : List (Call E S W)) (a : Agent M P Q E S W)
        → IsSettled b a
        → IsSettled b (perform_all b cs a)
    calls-IsSettled [] a s = s
    calls-IsSettled (c ∷ cs) a s = calls-IsSettled cs (perform b c a) (call-IsSettled c a s)

    -- An agent that `New` made of any options, and of which any methods have been called in any order,
    -- is settled.
    pub lifecycle-IsSettled :
        (opts : List (Agent M P Q E S W → Agent M P Q E S W)) (cs : List (Call E S W))
        → AllOffered opts
        → IsSettled b (perform_all b cs (new_agent b opts))
    unfolding new_agent
    lifecycle-IsSettled opts cs o =
        calls-IsSettled cs (init b (apply_options opts blank_agent))
          (init-IsSettled (apply_options opts blank_agent) (given-IsFresh opts o))
