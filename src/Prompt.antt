-- ===== src/Prompt.antt =====
-- prompt/builder.go and prompt/catalog.go: the system prompt of rules and skills.
pub mod Defaults
pub mod Disclosure
use simple_agent_framework.Prelude.{Bool, true, false, if◌then◌else◌, List, [], ◌∷◌, ◌++◌, ℕ}
use simple_agent_framework.Prelude.Int.{ℤ}
use simple_agent_framework.Prelude.Text.{Text, codes, is_empty, join}

-- `RuleSummary`, and `SkillSummary`, which has the same fields.
pub record Summary : Type 0 where
  pub name : Text
  pub description : Text
  pub always_apply : Bool
  pub content : Text

pub record Section : Type 0 where
  pub name : Text
  pub content : Text
  pub priority : ℤ

-- The template engine is never read.
pub record PromptBuilder : Type 0 where
  pub base : Text
  pub rules : List Summary
  pub skills : List Summary
  pub sections : List Section

unfoldable pub new_builder : Text → PromptBuilder
new_builder base = record { base = base; rules = []; skills = []; sections = [] }

unfoldable pub with_rules : List Summary → PromptBuilder → PromptBuilder
with_rules rules b = record b { rules = rules }

unfoldable pub with_skills : List Summary → PromptBuilder → PromptBuilder
with_skills skills b = record b { skills = skills }

unfoldable pub add_section : Text → Text → ℤ → PromptBuilder → PromptBuilder
add_section name content priority b = record b {
  sections = b.sections ++ record { name = name; content = content; priority = priority } ∷ [];
}

-- A part that is not empty comes first.
abbrev pub part : Text → List Text → List Text
part t parts = if is_empty t then parts else t ∷ parts

abbrev pub contents : List Section → List Text
contents [] = []
contents (s ∷ ss) = s.content ∷ contents ss

-- The lines between the tags, where there are any.
abbrev block : Text → Text → Text → Text
block opening lines closing = if is_empty lines then [] else opening ++ (lines ++ closing)

-- `quote` prints a name for `%q`.
module _ (quote : Text → Text) where
  -- `<kind name="name">`, a separator, the text, a separator and `</kind>`.
  abbrev element : Text → Text → Text → Summary → Text → Text
  element indent kind sep s text =
      indent
      ++ (codes "<"
          ++ (kind
              ++ (codes " name="
                  ++ (quote s.name
                      ++ (codes ">"
                          ++ (sep ++ (text ++ (sep ++ (codes "</" ++ (kind ++ codes ">\n"))))))))))

  unfoldable pub always_on_lines : Text → List Summary → Text
  always_on_lines kind [] = []
  always_on_lines kind (s ∷ ss) =
      let behind = always_on_lines kind ss in
      if s.always_apply then element [] kind (codes "\n") s s.content ++ behind else behind

  unfoldable pub catalog_lines : Text → List Summary → Text
  catalog_lines kind [] = []
  catalog_lines kind (s ∷ ss) =
      let behind = catalog_lines kind ss in
      if s.always_apply then behind else element (codes "  ") kind [] s s.description ++ behind

  unfoldable pub build_always_on_rules : List Summary → Text
  build_always_on_rules rules =
      block (codes "<rules>\n") (always_on_lines (codes "rule") rules) (codes "</rules>")

  unfoldable pub build_rule_catalog : List Summary → Text
  build_rule_catalog rules =
      block
        (codes
          "<available_rules>\nUse the rule_view tool to read the full content of a rule when needed.\n")
        (catalog_lines (codes "rule") rules) (codes "</available_rules>")

  unfoldable pub build_always_on_skills : List Summary → Text
  build_always_on_skills skills =
      block (codes "<skills>\n") (always_on_lines (codes "skill") skills) (codes "</skills>")

  unfoldable pub build_skill_catalog : List Summary → Text
  build_skill_catalog skills =
      block (codes "<available_skills>\nUse the skill_call tool to invoke a skill when needed.\n")
        (catalog_lines (codes "skill") skills) (codes "</available_skills>")

  -- `Build`: the prompt, and the builder with its sections sorted; `sorted` is `sort.Slice` by
  -- `Priority`, of which the order of equal priorities is not known.
  unfoldable pub build : (List Section → List Section) → PromptBuilder → Text × PromptBuilder
  build sorted b = (
    join (codes "\n\n") (
        part b.base (
          part (build_always_on_rules b.rules) (
            part (build_rule_catalog b.rules) (
              part (build_always_on_skills b.skills)
                (part (build_skill_catalog b.skills) (contents (sorted b.sections))))))),
    record b { sections = sorted b.sections },
  )
