-- ===== src/Planner/ToolInput.antt =====
-- agent/loop.go and planner/react.go: `normalizeToolInput`, which stands in both.
use simple_agent_framework.Prelude.{
  Bool, false, ◌==◌, ◌||◌, [], ◌∷◌, Option, none, some, if◌then◌else◌,
}
use simple_agent_framework.Prelude.Text.{Text, trim_space}
use simple_agent_framework.Model.Value.{Value, str, obj, Fields, end, field, Input}

-- `s[0] == '{' || s[0] == '['`
abbrev opens_json : Text → Bool
opens_json [] = false
opens_json (c ∷ s) = c == b'{' || c == b'['

-- A text that holds a JSON object is replaced by the object. A text that is no JSON has no parse.
normalize_value : (Text → Option Value) → Value → Value
normalize_value parse_json (str t) =
    let s = trim_space t in
    if opens_json s then elim (parse_json s) [ some (obj fs) ↦ obj fs | _ ↦ str t ] else str t
normalize_value parse_json v = v

normalize_fields : (Text → Option Value) → Fields → Fields
unfolding normalize_value
normalize_fields parse_json end = end
normalize_fields parse_json (field k v rest) =
    field k (normalize_value parse_json v) (normalize_fields parse_json rest)

unfoldable pub normalize_tool_input : (Text → Option Value) → Input → Input
unfolding normalize_fields
normalize_tool_input parse_json none = some end
normalize_tool_input parse_json (some fs) = some (normalize_fields parse_json fs)
