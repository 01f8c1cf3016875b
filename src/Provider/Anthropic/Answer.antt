-- ===== src/Provider/Anthropic/Answer.antt =====
-- model/provider/anthropic/anthropic.go: the client, and what it makes of an answer.
use simple_agent_framework.Prelude.{ℕ, ◌+◌, Bool, false, if◌then◌else◌, List, [], ◌∷◌, ◌++◌, some}
use simple_agent_framework.Prelude.Text.{Text, codes, is_empty, text_eq}
use simple_agent_framework.Errors.{Exec, Result, ok, err}
use simple_agent_framework.Model.{ChatMessage, ToolCall, Role, Usage, ChatResponse}
use simple_agent_framework.Model.Value.{Input, end, or_empty}
use simple_agent_framework.Model.Options.{CallOptions}
use simple_agent_framework.Provider.Transport.{Transport, wrap, wrapped, trim_slash, request}
use simple_agent_framework.Provider.Anthropic.{MessagesRequest, build_messages_request}

-- `input` is the text of the JSON value.
pub record ContentBlock : Type 0 where
  pub kind : Text
  pub text : Text
  pub id : Text
  pub name : Text
  pub input : Text

pub record AnthropicUsage : Type 0 where
  pub input_tokens : ℕ
  pub output_tokens : ℕ

pub record MessagesResponse : Type 0 where
  pub content : List ContentBlock
  pub usage : AnthropicUsage

-- What encoding/json makes of these types, and `%q` of a text.
pub record Json (F : Type 0) : Type 0 where
  pub marshal_request : MessagesRequest F → Result Text
  pub parse_answer : Text → Result MessagesResponse
  pub parse_input : Text → Result Input
  pub quote : Text → Text

-- The total is the sum of the two.
abbrev pub usage_of : AnthropicUsage → Usage
usage_of u = record {
  prompt_tokens = u.input_tokens;
  completion_tokens = u.output_tokens;
  total_tokens = u.input_tokens + u.output_tokens;
}

module _ {F : Type 0} (json : Json F) where
  -- A null input, and one that is missing, is empty.
  unfoldable pub parse_block_input : Text → Result Input
  parse_block_input t =
      if is_empty t
      then ok (some end)
      else if text_eq t (codes "null")
      then ok (some end)
      else elim (json.parse_input t) [ ok input ↦ ok (or_empty input) | err e ↦ err e ]

  -- The message with the text and the call of one more block before its own.
  abbrev with_text : Text → ChatMessage → ChatMessage
  with_text t m = record m { content = t ++ m.content }

  abbrev with_call : ToolCall → ChatMessage → ChatMessage
  with_call tc m = record m { tool_calls = tc ∷ m.tool_calls }

  abbrev on_message : (ChatMessage → ChatMessage) → Result ChatMessage → Result ChatMessage
  on_message f (ok m) = ok (f m)
  on_message f (err e) = err e

  -- The texts of the blocks, joined, and their calls; the first input that cannot be read is an error.
  unfoldable pub blocks_to_model : List ContentBlock → Result ChatMessage
  unfolding parse_block_input
  blocks_to_model [] = ok (record {
    role = Role.assistant;
    content = [];
    tool_calls = [];
    tool_call_id = [];
    name = [];
  })
  blocks_to_model (b ∷ bs) =
      let behind = blocks_to_model bs in
      if text_eq b.kind (codes "text")
      then on_message (with_text b.text) behind
      else if text_eq b.kind (codes "tool_use")
      then elim (parse_block_input b.input) [
        | err e ↦ err (wrap (codes "anthropic: tool " ++ (json.quote b.name ++ codes " input: ")) e)
        | ok input ↦
            on_message (with_call (record { id = b.id; name = b.name; arguments = input })) behind
      ]
      else behind

  abbrev response_of : MessagesResponse → Result ChatResponse
  response_of r = elim (blocks_to_model r.content) [
    | err e ↦ err e
    | ok msg ↦ ok (record { message = msg; usage = usage_of r.usage })
  ]

  abbrev decoded : Result MessagesResponse → Result ChatResponse
  decoded (err e) = err (wrap (codes "anthropic: decode response: ") e)
  decoded (ok r) = response_of r

pub record Client : Type 0 where
  pub model_name : Text
  pub api_key : Text
  pub base_url : Text
  pub api_version : Text

unfoldable pub messages_url : Client → Text
messages_url c = trim_slash c.base_url ++ codes "/messages"

abbrev key_header : Text → List (Text × Text)
key_header key = if is_empty key then [] else (codes "x-api-key", key) ∷ []

abbrev accept_header : Bool → List (Text × Text)
accept_header stream = if stream then (codes "Accept", codes "text/event-stream") ∷ [] else []

unfoldable pub set_headers : Client → Bool → List (Text × Text)
set_headers c stream =
    (codes "Content-Type", codes "application/json")
    ∷ (codes "anthropic-version", c.api_version)
    ∷ (key_header c.api_key ++ accept_header stream)

module _ {F W : Type 0} (json : Json F) (t : Transport W) where
  unfoldable pub generate : Client → List ChatMessage → CallOptions F → Exec W ChatResponse
  generate c ms call w = elim (build_messages_request json.quote c.model_name ms call false) [
    | err e ↦ (err e, w)
    | ok body ↦ (elim (wrapped (codes "anthropic: marshal request: ") (json.marshal_request body)) [
      | err e ↦ (err e, w)
      | ok payload ↦
          (let (answer, w') =
              request (codes "anthropic") t (messages_url c) (set_headers c false) payload w in
            (elim answer [ err e ↦ err e | ok text ↦ decoded json (json.parse_answer text) ], w'))
    ])
  ]
