-- ===== src/Planner/React.antt =====
-- planner/react.go: the planner that takes the first tool call of the model's answer, or its text.
use simple_agent_framework.Prelude.{List, [], ◌∷◌, Option, none, some, if◌then◌else◌}
use simple_agent_framework.Prelude.Text.{Text, codes, trim_space, is_empty}
use simple_agent_framework.Errors.{Error, Result, Exec, ok, err, raise}
use simple_agent_framework.Model.{ToolCall, ChatMessage, ChatResponse, Role, message}
use simple_agent_framework.Model.Value.{Value, obj, end}
use simple_agent_framework.Model.Options.{ToolDef}
use simple_agent_framework.Planner.{
  Planner, PlanState, PlanResult, ToolInfo, tool_call, final_answer,
}
use simple_agent_framework.Planner.ToolInput.{normalize_tool_input}

-- The model's `Generate`, which may return no answer and no error.
abbrev pub Generate : Type 0 → Type 0
Generate W = List ChatMessage → List ToolDef → Exec W (Option ChatResponse)

pub record ReactPlanner (W : Type 0) : Type 0 where
  pub model : Option (Generate W)
  pub system_prompt : Text

unfoldable pub with_system_prompt : {W : Type 0} → Text → ReactPlanner W → ReactPlanner W
with_system_prompt p r = record r { system_prompt = p }

abbrev applied :
    {W : Type 0} → List (ReactPlanner W → ReactPlanner W) → ReactPlanner W → ReactPlanner W
applied [] p = p
applied (o ∷ os) p = applied os (o p)

unfoldable pub new_react :
    {W : Type 0} → Option (Generate W) → List (ReactPlanner W → ReactPlanner W) → ReactPlanner W
new_react m opts = applied opts (record { model = m; system_prompt = [] })

abbrev default_react_system : Text
default_react_system =
    codes
      "You are a ReAct agent. Reason step by step in your visible text, call tools when you need external actions or data, and give a concise final answer in plain text when the task is done."

abbrev or_default : Text → Text
or_default sp = if is_empty sp then default_react_system else sp

unfoldable pub build_react_messages : PlanState → Text → List ChatMessage
build_react_messages state system_prompt = elim state.messages [
  | [] ↦ message Role.system (or_default (trim_space system_prompt)) ∷ []
  | m ∷ ms ↦ m ∷ ms
]

-- A schema that is nil becomes an empty map.
abbrev or_empty_map : Value → Value
or_empty_map Value.null = obj end
or_empty_map v = v

unfoldable pub tool_infos_to_tool_defs : List ToolInfo → List ToolDef
tool_infos_to_tool_defs [] = []
tool_infos_to_tool_defs (t ∷ ts) =
    record { name = t.name; description = t.description; parameters = some (or_empty_map t.schema) }
    ∷ tool_infos_to_tool_defs ts

-- What is planned after a message of the model with these calls, the first of which counts.
unfoldable pub planned : (Text → Option Value) → Text → List ToolCall → PlanResult
planned parse_json content [] = record {
  action = record {
    kind = final_answer;
    tool_name = [];
    tool_input = none;
    answer = trim_space content;
  };
  reasoning = trim_space content;
}
planned parse_json content (tc ∷ tcs) = record {
  action = record {
    kind = tool_call;
    tool_name = trim_space tc.name;
    tool_input = normalize_tool_input parse_json tc.arguments;
    answer = [];
  };
  reasoning = trim_space content;
}

abbrev answered : (Text → Option Value) → Result (Option ChatResponse) → Result PlanResult
answered parse_json (err e) = err e
answered parse_json (ok none) = err (Error.other (codes "react: empty response"))
answered parse_json (ok (some resp)) =
    ok (planned parse_json resp.message.content resp.message.tool_calls)

abbrev asked :
    {W : Type 0}
    → (Text → Option Value)
    → Option (Generate W)
    → Text
    → PlanState
    → Exec W PlanResult
asked parse_json none system_prompt state = raise (Error.other (codes "react: model is nil"))
asked parse_json (some generate) system_prompt state = λ w.
    let (r, w') =
      generate (build_react_messages state system_prompt) (tool_infos_to_tool_defs state.tools) w in
    (answered parse_json r, w')

-- `Plan`, with `parse_json` for encoding/json.
unfoldable pub plan_react : {W : Type 0} → (Text → Option Value) → ReactPlanner W → Planner W
plan_react parse_json p = asked parse_json p.model p.system_prompt
