-- ===== src/Rule.antt =====
-- rule/rule.go and rule/registry.go: guidelines, and their registry.
pub mod Loader
use simple_agent_framework.Prelude.{Bool, List, Option}
use simple_agent_framework.Prelude.Text.{Text}
use simple_agent_framework.Registry as Registry

-- `FileRule`, which is all that the interface `Rule` tells.
pub record FileRule : Type 0 where
  pub name : Text
  pub description : Text
  pub content : Text
  pub always_apply : Bool

unfoldable pub new_file_rule : Text → Text → Text → Bool → FileRule
new_file_rule name description content always_apply = record {
  name = name;
  description = description;
  content = content;
  always_apply = always_apply;
}

abbrev pub rule_name : FileRule → Text
rule_name r = r.name

abbrev pub RuleRegistry : Type 0
RuleRegistry = Registry.Registry FileRule

unfoldable pub new_rules : RuleRegistry
new_rules = Registry.new_registry

unfoldable pub add_rules : List (Option FileRule) → RuleRegistry → RuleRegistry
add_rules = Registry.add rule_name
