-- ===== src/Prompt/Disclosure.antt =====
-- prompt/catalog.go: what the prompt tells of a rule or skill that is loaded on demand.
use simple_agent_framework.Prelude.{
  ◌≡◌, refl, if◌then◌else◌, List, [], ◌∷◌, map, Bool-cases, inl, inr,
}
use simple_agent_framework.Prelude.Text.{Text, codes}
use simple_agent_framework.Prompt.{
  Summary, Section, PromptBuilder, always_on_lines, catalog_lines, build_always_on_rules,
  build_rule_catalog, build_always_on_skills, build_skill_catalog, build,
}

-- What the model may see of a summary at once: of a rule or skill that always applies its content and
-- not its description, and of one on demand its description and not its content.
abbrev pub visible : Summary → Summary
visible s = if s.always_apply then record s { description = [] } else record s { content = [] }

module _ (quote : Text → Text) where
  always_on_lines-visible :
      (kind : Text) (l : List Summary)
      → always_on_lines quote kind (map visible l) ≡ always_on_lines quote kind l
  unfolding always_on_lines
  always_on_lines-visible kind [] = refl
  always_on_lines-visible kind (s ∷ l) = elim (Bool-cases s.always_apply) [
    | inl always ↦
        (let ih = always_on_lines-visible kind l in rw (always_on_lines, always, ih) refl)
    | inr on_demand ↦
        (let ih = always_on_lines-visible kind l in rw (always_on_lines, on_demand, ih) refl)
  ]

  catalog_lines-visible :
      (kind : Text) (l : List Summary)
      → catalog_lines quote kind (map visible l) ≡ catalog_lines quote kind l
  unfolding catalog_lines
  catalog_lines-visible kind [] = refl
  catalog_lines-visible kind (s ∷ l) = elim (Bool-cases s.always_apply) [
    | inl always ↦ (let ih = catalog_lines-visible kind l in rw (catalog_lines, always, ih) refl)
    | inr on_demand ↦
        (let ih = catalog_lines-visible kind l in rw (catalog_lines, on_demand, ih) refl)
  ]

  -- The prompt depends only on what is visible of the rules and skills: of those that always apply the
  -- name and the content, and of those on demand the name and the description.
  pub build-visible :
      (sorted : List Section → List Section) (b : PromptBuilder)
      → (build quote sorted
          (record b { rules = map visible b.rules; skills = map visible b.skills })).0
        ≡ (build quote sorted b).0
  unfolding build build_always_on_rules build_rule_catalog build_always_on_skills
      build_skill_catalog
  build-visible sorted b =
      rw
        (
          always_on_lines-visible (codes "rule") b.rules,
          catalog_lines-visible (codes "rule") b.rules,
          always_on_lines-visible (codes "skill") b.skills,
          catalog_lines-visible (codes "skill") b.skills,
        )
        refl
