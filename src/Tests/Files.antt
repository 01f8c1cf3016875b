-- ===== src/Tests/Files.antt =====
-- rule/loader.go and skill/loader.go on small inputs.
use simple_agent_framework.Prelude.{◌≡◌, refl, true, false, []}
use simple_agent_framework.Prelude.Text.{codes, trim_space, has_prefix}
use simple_agent_framework.Planner.PlanAndSolve.Extract.{index}
use simple_agent_framework.FrontMatter.{FrontMatter, parse_frontmatter, trim_bom}
use simple_agent_framework.FrontMatter.Printed.{printed, parse_frontmatter-printed}

abbrev style : FrontMatter
style = record {
  description = codes "how to write";
  always_apply = true;
  body = codes "Be brief.\nBe kind.";
}

parse_frontmatter-printed_example : parse_frontmatter (printed style) ≡ style
unfolding trim_space
parse_frontmatter-printed_example = parse_frontmatter-printed style refl refl refl refl

without_front_matter :
    parse_frontmatter (codes "how to write\nBe brief.\n")
    ≡ record { description = codes "how to write"; always_apply = false; body = codes "Be brief." }
unfolding parse_frontmatter trim_bom index has_prefix trim_space
without_front_matter = refl

-- Front matter without a line in it is not seen to end.
empty_front_matter :
    parse_frontmatter (codes "---\n---\nBe brief.")
    ≡ record { description = []; always_apply = false; body = codes "---\n---\nBe brief." }
unfolding parse_frontmatter trim_bom index has_prefix trim_space
empty_front_matter = refl
