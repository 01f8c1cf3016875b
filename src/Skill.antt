-- ===== src/Skill.antt =====
-- skill/skill.go and skill/registry.go: procedures, and their registry.
pub mod Context
pub mod Loader
use simple_agent_framework.Prelude.{Bool, false, List, [], ◌∷◌, Option}
use simple_agent_framework.Prelude.Int.{ℤ, pos}
use simple_agent_framework.Prelude.Text.{Text}
use simple_agent_framework.Registry as Registry

-- `DirSkill`, which is all that the interface `Skill` tells, with the tools in the form `T`.
pub record DirSkill (T : Type 0) : Type 0 where
  pub name : Text
  pub description : Text
  pub base_path : Text
  pub instruction : Text
  pub tools : List T
  pub max_iter : ℤ
  pub always_apply : Bool

abbrev pub SkillRegistry : Type 0 → Type 0
SkillRegistry T = Registry.Registry (DirSkill T)

module _ {T : Type 0} where
  unfoldable pub with_tools : List T → DirSkill T → DirSkill T
  with_tools ts s = record s { tools = ts }

  unfoldable pub with_max_iterations : ℤ → DirSkill T → DirSkill T
  with_max_iterations n s = record s { max_iter = n }

  unfoldable pub with_always_apply : Bool → DirSkill T → DirSkill T
  with_always_apply v s = record s { always_apply = v }

  -- `for _, opt := range opts { opt(s) }`
  abbrev apply_options : List (DirSkill T → DirSkill T) → DirSkill T → DirSkill T
  apply_options [] s = s
  apply_options (opt ∷ opts) s = apply_options opts (opt s)

  unfoldable pub new_dir_skill :
      Text → Text → Text → Text → List (DirSkill T → DirSkill T) → DirSkill T
  new_dir_skill name description base_path instruction opts = apply_options opts (record {
    name = name;
    description = description;
    base_path = base_path;
    instruction = instruction;
    tools = [];
    max_iter = pos 10;
    always_apply = false;
  })

  abbrev pub skill_name : DirSkill T → Text
  skill_name s = s.name

  unfoldable pub add_skills : List (Option (DirSkill T)) → SkillRegistry T → SkillRegistry T
  add_skills = Registry.add skill_name

  unfoldable pub remove_skill : Text → SkillRegistry T → SkillRegistry T
  remove_skill = Registry.remove

  unfoldable pub list_skills : SkillRegistry T → List (DirSkill T)
  list_skills = Registry.list
