-- ===== src/Provider/Anthropic.antt =====
-- model/provider/anthropic/anthropic.go: requests, answers and streams of the Anthropic client. HTTP
-- and encoding/json are not modelled: `parse` is `json.Unmarshal` into a `map[string]any`.
pub mod Conversation
pub mod Runs
pub mod Sending
pub mod Answer
pub mod Stream
use simple_agent_framework.Prelude.{
  ℕ, zero, suc, ◌+◌, ltb, Bool, true, false, if◌then◌else◌, List, [], ◌∷◌, ◌++◌, map, Option, none,
  some, length,
}
use simple_agent_framework.Prelude.Int.{ℤ, pos}
use simple_agent_framework.Prelude.Text.{Text, codes, is_empty, join, trim_space, text_eq}
use simple_agent_framework.Errors.{Error, Result, ok, err}
use simple_agent_framework.Model.{
  ChatMessage, ToolCall, Role, Usage, ChatResponse, is_system, is_tool, role_text, message,
}
use simple_agent_framework.Model.Value.{
  Value, Input, Fields, Items, null, str, obj, arr, cons, nil, field, end,
}
use simple_agent_framework.Model.Options.{CallOptions, ToolDef}

-- The entries of a message's content, which are JSON objects.
pub data Block : Type 0 where
  text_block : Text → Block
  tool_use : Text → Text → Input → Block
  tool_result : Text → Text → Block

-- `Content any`: a text, or a list of blocks.
pub data Content : Type 0 where
  plain : Text → Content
  blocks : List Block → Content

-- `anthropicReqMsg`; the role is "user" or "assistant".
pub record ReqMsg : Type 0 where
  pub role : Text
  pub content : Content

pub record AnthropicTool : Type 0 where
  pub name : Text
  pub description : Text
  pub input_schema : Value

pub record MessagesRequest (F : Type 0) : Type 0 where
  pub model : Text
  pub max_tokens : ℤ
  pub system : Text
  pub messages : List ReqMsg
  pub tools : List AnthropicTool
  pub stream : Bool
  pub temperature : Option F
  pub top_p : Option F
  pub stop_sequences : List Text

-- `{"type": "object", "properties": {}}`
abbrev empty_schema : Value
empty_schema =
    obj (field (codes "type") (str (codes "object")) (field (codes "properties") (obj end) end))

abbrev or_empty_schema : Option Value → Value
or_empty_schema none = empty_schema
or_empty_schema (some v) = v

unfoldable pub tool_defs_to_anthropic : List ToolDef → List AnthropicTool
tool_defs_to_anthropic [] = []
tool_defs_to_anthropic (t ∷ ts) =
    record {
      name = t.name;
      description = t.description;
      input_schema = or_empty_schema t.parameters;
    }
    ∷ tool_defs_to_anthropic ts

abbrev pub tool_uses : List ToolCall → List Block
tool_uses [] = []
tool_uses (tc ∷ tcs) = tool_use tc.id tc.name tc.arguments ∷ tool_uses tcs

-- The text of an assistant message that is not blank comes before its calls.
unfoldable pub assistant_content : ChatMessage → Content
assistant_content m = elim m.tool_calls [
  | [] ↦ plain m.content
  | tc ∷ tcs ↦
      (let uses = tool_uses (tc ∷ tcs) in
        if is_empty (trim_space m.content)
        then blocks uses
        else blocks (text_block m.content ∷ uses))
]

abbrev pub system_parts : List ChatMessage → List Text
system_parts [] = []
system_parts (m ∷ ms) = if is_system m.role then m.content ∷ system_parts ms else system_parts ms

-- The run of tool messages that a list begins with, as blocks, and what comes after it.
unfoldable pub tool_run : List ChatMessage → Result (List Block × List ChatMessage)
tool_run [] = ok ([], [])
tool_run (m ∷ ms) =
    let after = tool_run ms in
    if is_tool m.role
    then (if is_empty m.tool_call_id
        then err (Error.other (codes "anthropic: tool message missing tool_call_id"))
        else elim after [
          | ok (bs, rest) ↦ ok (tool_result m.tool_call_id m.content ∷ bs, rest)
          | err e ↦ err e
        ])
    else ok ([], m ∷ ms)

-- `defaultMaxTokens`, where the call sets none.
abbrev max_tokens_of : Option ℤ → ℤ
max_tokens_of none = pos 4096
max_tokens_of (some n) = n

abbrev pub user_msg : Content → ReqMsg
user_msg c = record { role = codes "user"; content = c }

abbrev pub assistant_msg : Content → ReqMsg
assistant_msg c = record { role = codes "assistant"; content = c }

abbrev pub behind : ReqMsg → Result (List ReqMsg) → Result (List ReqMsg)
behind r (ok rs) = ok (r ∷ rs)
behind r (err e) = err e

module _ (quote : Text → Text) where
  abbrev pub unsupported : Role → Error
  unsupported r = Error.other (codes "anthropic: unsupported role " ++ quote (role_text r))

  -- The loop over the messages; each round takes one at least, so that their number is enough fuel.
  unfoldable pub convert : ℕ → List ChatMessage → Result (List ReqMsg)
  convert fuel [] = ok []
  convert zero (m ∷ ms) = ok []
  convert (suc fuel) (m ∷ ms) = elim m.role [
    | Role.system ↦ convert fuel ms
    | Role.tool ↦ (elim (tool_run (m ∷ ms)) [
      | ok (bs, rest) ↦ behind (user_msg (blocks bs)) (convert fuel rest)
      | err e ↦ err e
    ])
    | Role.user ↦ behind (user_msg (plain m.content)) (convert fuel ms)
    | Role.assistant ↦ behind (assistant_msg (assistant_content m)) (convert fuel ms)
    | Role.named t ↦ err (unsupported m.role)
  ]

  -- `modelMessagesToAnthropic`: the system text, and the messages.
  unfoldable pub to_anthropic : List ChatMessage → Result (Text × List ReqMsg)
  to_anthropic ms = elim (convert (length ms) ms) [
    | ok rs ↦ ok (join (codes "\n\n") (system_parts ms), rs)
    | err e ↦ err e
  ]

  module _ {F : Type 0} where
    unfoldable pub build_messages_request :
        Text → List ChatMessage → CallOptions F → Bool → Result (MessagesRequest F)
    build_messages_request model_name ms call stream = elim (to_anthropic ms) [
      | err e ↦ err e
      | ok (system, msgs) ↦ ok (record {
        model = model_name;
        max_tokens = max_tokens_of call.max_tokens;
        system = system;
        messages = msgs;
        tools = tool_defs_to_anthropic call.tools;
        stream = stream;
        temperature = call.temperature;
        top_p = call.top_p;
        stop_sequences = call.stop_words;
      })
    ]
