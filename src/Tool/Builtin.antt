-- ===== src/Tool/Builtin.antt =====
-- tool/builtin/rule_view.go, skill_call.go and fetch_full_result.go, and what agent/agent.go gives them
-- to call. Their schemas are arguments.
pub mod Fetched
use simple_agent_framework.Prelude.{ℕ, List, [], ◌∷◌, ◌++◌, Option, none, some, if◌then◌else◌}
use simple_agent_framework.Prelude.Text.{Text, codes, is_empty, text_eq}
use simple_agent_framework.Errors.{Error, error_text, Result, Exec, Context, ok, err, raise}
use simple_agent_framework.Model.{ChatMessage, ChatResponse}
use simple_agent_framework.Model.Value.{Value, Input, Fields, str, end, field}
use simple_agent_framework.Model.Options.{ToolDef}
use simple_agent_framework.Memory.ContentStore.{ContentStore}
use simple_agent_framework.Registry as Registry
use simple_agent_framework.Rule.{FileRule, RuleRegistry}
use simple_agent_framework.Skill.{DirSkill, SkillRegistry}
use simple_agent_framework.Skill.Context.{AnyTool, SkillContextLog, new_context, run}
use simple_agent_framework.Tool.{Tool}

-- `fs[key]`, of a map that has each key once.
abbrev pub field_of : Text → Fields → Option Value
field_of key end = none
field_of key (field k v rest) = if text_eq k key then some v else field_of key rest

abbrev as_text : Option Value → Option Text
as_text (some (str t)) = some t
as_text _ = none

-- `v, ok := input[key].(string)`
abbrev text_field : Text → Input → Option Text
text_field key none = none
text_field key (some fs) = as_text (field_of key fs)

-- `v, _ := input[key].(string)`
abbrev or_blank : Option Text → Text
or_blank none = []
or_blank (some t) = t

abbrev failing : {W : Type 0} → Text → Exec W Text
failing t = raise (Error.other t)

abbrev view_by : {W : Type 0} → Text → Option (Text → Exec W Text) → Exec W Text
view_by name none = failing (codes "rule lookup is not configured")
view_by name (some lookup) = lookup name

unfoldable pub rule_view_execute : {W : Type 0} → Option (Text → Exec W Text) → Input → Exec W Text
rule_view_execute lookup input =
    let name = or_blank (text_field (codes "name") input) in
    if is_empty name then failing (codes "name is required") else view_by name lookup

abbrev call_by :
    {W : Type 0} → Text → Option Text → Option (Text → Text → Exec W Text) → Exec W Text
call_by name none execute = failing (codes "input is required")
call_by name (some given) none = failing (codes "skill execution is not configured")
call_by name (some given) (some execute) = execute name given

unfoldable pub skill_call_execute :
    {W : Type 0} → Option (Text → Text → Exec W Text) → Input → Exec W Text
skill_call_execute execute input =
    let name = or_blank (text_field (codes "name") input) in
    if is_empty name
    then failing (codes "name is required")
    else call_by name (text_field (codes "input") input) execute

-- `fmt.Errorf("content %q not found or expired: %w", id, err)`, with `quote` for `%q`.
abbrev not_loaded : (Text → Text) → Text → Result Text → Result Text
not_loaded quote id (ok content) = ok content
not_loaded quote id (err e) =
    err (Error.wrapping (codes "content " ++ (quote id ++ codes " not found or expired: ")) e [])

abbrev fetch_by : {W : Type 0} → (Text → Text) → Text → Option (Text → Exec W Text) → Exec W Text
fetch_by quote id none w = failing (codes "fetch_full_result: no content store available") w
fetch_by quote id (some load) w = let (r, w') = load id w in (not_loaded quote id r, w')

unfoldable pub fetch_execute :
    {W : Type 0} → (Text → Text) → Option (Text → Exec W Text) → Input → Exec W Text
fetch_execute quote load input = fetch_by quote (or_blank (text_field (codes "id") input)) load

abbrev from_store : {W : Type 0} → Option (ContentStore W) → Text → Exec W Text
from_store none id = failing (codes "no content store in context")
from_store (some store) id = store.load id

-- What the hooks are told of a call of a skill, before, of its log, and after.
pub record SkillEvents (W : Type 0) : Type 0 where
  pub on_start : Text → Text → W → W
  pub on_log : SkillContextLog → W → W
  pub on_done : Text → Text → W → W

module _ {S W : Type 0} (schema : Option S) where
  -- `fetch_full_result`, over the content store that the session puts into the context.
  unfoldable pub fetch_full_result_tool :
      (Text → Text) → (Context → Option (ContentStore W)) → Tool S W
  unfolding fetch_execute
  fetch_full_result_tool quote store_in = record {
    name = codes "fetch_full_result";
    description =
        codes "Retrieve the full content of a previously truncated tool result by its persisted ID";
    schema = schema;
    execute = λ ctx. fetch_execute quote (some (from_store (store_in ctx)));
  }

  abbrev viewed : (Text → W → W) → Text → Option FileRule → Exec W Text
  viewed emit name none w = failing (codes "rule not found: " ++ name) w
  viewed emit name (some r) w = (ok r.content, emit name w)

  -- `rule_view`, over the agent's rules as they are when it is called; `emit` tells the hooks.
  unfoldable pub rule_view_tool : (W → RuleRegistry) → (Text → W → W) → Tool S W
  unfolding rule_view_execute
  rule_view_tool rules_of emit = record {
    name = codes "rule_view";
    description = codes "Fetch the full content of a rule by name.";
    schema = schema;
    execute = λ ctx.
        rule_view_execute (some (λ name w. viewed emit name (Registry.get name (rules_of w)) w));
  }

  abbrev called_skill :
      (List ChatMessage → List ToolDef → Exec W ChatResponse)
      → SkillEvents W
      → Context
      → Text
      → Text
      → Option (DirSkill (AnyTool W))
      → Exec W Text
  called_skill generate hooks ctx name given none w = failing (codes "skill not found: " ++ name) w
  called_skill generate hooks ctx name given (some s) w =
      let (out, log, w') =
        run generate ctx (new_context s given s.instruction) (hooks.on_start name given w) in
      (ok out, hooks.on_done name out (hooks.on_log log w'))

  -- `skill_call`, over the agent's model and its skills as they are when it is called.
  unfoldable pub skill_call_tool :
      (List ChatMessage → List ToolDef → Exec W ChatResponse)
      → SkillEvents W
      → (W → SkillRegistry (AnyTool W))
      → Tool S W
  unfolding skill_call_execute
  skill_call_tool generate hooks skills_of = record {
    name = codes "skill_call";
    description = codes "Invoke a Skill by name with the given input text.";
    schema = schema;
    execute = λ ctx. skill_call_execute (
        some (λ name given w.
          called_skill generate hooks ctx name given (Registry.get name (skills_of w)) w));
  }
