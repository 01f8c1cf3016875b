-- ===== src/Agent/Setup/Members.antt =====
-- agent/agent.go: an agent stays settled when rules and skills come and go.
use simple_agent_framework.Prelude.{◌≡◌, refl, Bool, true, List, [], ◌∷◌, Option, ◌||◌, arith}
use simple_agent_framework.Prelude.Text.{Text}
use simple_agent_framework.Registry as Registry
use simple_agent_framework.Registry.Dictionary.{erase}
use simple_agent_framework.Registry.Refine.{add-refines, remove-refines}
use simple_agent_framework.Rule.{FileRule, rule_name, add_rules}
use simple_agent_framework.Skill.{DirSkill, skill_name, add_skills, remove_skill, list_skills}
use simple_agent_framework.Tool.{Tool}
use simple_agent_framework.Agent.Setup.{
  Agent, Builtins, no_items, rebuild_prompt_builder, take_rules, take_skills, remove_rule,
  drop_skill,
}
use simple_agent_framework.Agent.Setup.Settled.{IsSettled, ensured-IsSettled}

no_items-erase :
    {A : Type 0} (name_of : A → Text) (name : Text) (l : List A) (flag : Bool)
    → (no_items l || flag) ≡ true
    → (no_items (erase name_of name l) || flag) ≡ true
no_items-erase name_of name [] flag h = h
no_items-erase name_of name (x ∷ l) flag h = ground arith

module _ {M P Q E S W : Type 0} where
  module _ (b : Builtins M P Q S W) where
    pub take_rules-IsSettled :
        (rs : List (Option FileRule)) (a : Agent M P Q E S W)
        → IsSettled b a
        → IsSettled b (take_rules b rs a)
    unfolding take_rules rebuild_prompt_builder add_rules
    take_rules-IsSettled rs a s =
        ensured-IsSettled b
          (rebuild_prompt_builder (record a { rule_registry = add_rules rs a.rule_registry }))
          (record {
            rules_valid = (add-refines rule_name rs a.rule_registry s.sound.rules_valid).0;
            skills_valid = s.sound.skills_valid;
            rule_view_kept = s.sound.rule_view_kept;
            skill_call_kept = s.sound.skill_call_kept;
            fetch_kept = s.sound.fetch_kept;
            eval_present = s.sound.eval_present;
          })
          s.in_mode refl

    pub take_skills-IsSettled :
        (ss : List (Option (DirSkill (Tool S W)))) (a : Agent M P Q E S W)
        → IsSettled b a
        → IsSettled b (take_skills b ss a)
    unfolding take_skills rebuild_prompt_builder add_skills
    take_skills-IsSettled ss a s =
        ensured-IsSettled b
          (rebuild_prompt_builder (record a { skill_registry = add_skills ss a.skill_registry }))
          (record {
            rules_valid = s.sound.rules_valid;
            skills_valid = (add-refines skill_name ss a.skill_registry s.sound.skills_valid).0;
            rule_view_kept = s.sound.rule_view_kept;
            skill_call_kept = s.sound.skill_call_kept;
            fetch_kept = s.sound.fetch_kept;
            eval_present = s.sound.eval_present;
          })
          s.in_mode refl

    pub remove_rule-IsSettled :
        (name : Text) (a : Agent M P Q E S W) → IsSettled b a → IsSettled b (remove_rule name a)
    unfolding remove_rule rebuild_prompt_builder
    remove_rule-IsSettled name a s =
        let (valid, same) = remove-refines rule_name name a.rule_registry s.sound.rules_valid in
        record {
          sound = record {
            rules_valid = valid;
            skills_valid = s.sound.skills_valid;
            rule_view_kept = s.sound.rule_view_kept;
            skill_call_kept = s.sound.skill_call_kept;
            fetch_kept = s.sound.fetch_kept;
            eval_present = s.sound.eval_present;
          };
          equipped = record {
            viewable = rw same (
                no_items-erase rule_name name (Registry.list a.rule_registry) _
                  s.equipped.viewable);
            invocable = s.equipped.invocable;
            fetchable = s.equipped.fetchable;
          };
          in_mode = s.in_mode;
          current = refl;
        }

    pub drop_skill-IsSettled :
        (name : Text) (a : Agent M P Q E S W) → IsSettled b a → IsSettled b (drop_skill name a)
    unfolding drop_skill rebuild_prompt_builder remove_skill list_skills
    drop_skill-IsSettled name a s =
        let (valid, same) = remove-refines skill_name name a.skill_registry s.sound.skills_valid in
        record {
          sound = record {
            rules_valid = s.sound.rules_valid;
            skills_valid = valid;
            rule_view_kept = s.sound.rule_view_kept;
            skill_call_kept = s.sound.skill_call_kept;
            fetch_kept = s.sound.fetch_kept;
            eval_present = s.sound.eval_present;
          };
          equipped = record {
            viewable = s.equipped.viewable;
            invocable = rw same (
                no_items-erase skill_name name (Registry.list a.skill_registry) _
                  s.equipped.invocable);
            fetchable = s.equipped.fetchable;
          };
          in_mode = s.in_mode;
          current = refl;
        }
