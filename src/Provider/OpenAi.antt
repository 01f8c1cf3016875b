-- ===== src/Provider/OpenAi.antt =====
-- model/provider/openai/openai.go: requests, answers and streams of the OpenAI client. HTTP and
-- encoding/json are parameters.
pub mod Stream
pub mod Interleaved
use simple_agent_framework.Prelude.{
  ℕ, Bool, true, false, if◌then◌else◌, List, [], ◌∷◌, ◌++◌, map, Option, none, some,
}
use simple_agent_framework.Prelude.Int.{ℤ}
use simple_agent_framework.Prelude.Text.{
  Text, codes, is_empty, has_prefix, trim_space, text_eq, decimal_int,
}
use simple_agent_framework.Errors.{Error, Exec, Result, ok, err, pure, raise, ◌>>=◌}
use simple_agent_framework.Model.{ChatMessage, ToolCall, Role, Usage, ChatResponse, role_text}
use simple_agent_framework.Model.Value.{Value, Input}
use simple_agent_framework.Model.Options.{CallOptions, ToolDef}
use simple_agent_framework.Model.Stream.{StreamChunk, text_chunk}
use simple_agent_framework.Provider.Transport.{
  Transport, Line, Sent, wrap, wrapped, trim_slash, request, update_index, by_index, concat,
  parse_arguments,
}

pub record ChatToolCallMsg : Type 0 where
  pub id : Text
  pub kind : Text
  pub name : Text
  pub arguments : Text

pub record ReqMessage : Type 0 where
  pub role : Text
  pub content : Text
  pub tool_calls : List ChatToolCallMsg
  pub tool_call_id : Text
  pub name : Text

pub record ChatTool : Type 0 where
  pub kind : Text
  pub name : Text
  pub description : Text
  pub parameters : Option Value

pub record ChatRequest (F : Type 0) : Type 0 where
  pub model : Text
  pub messages : List ReqMessage
  pub temperature : Option F
  pub max_tokens : Option ℤ
  pub top_p : Option F
  pub stop : List Text
  pub tools : List ChatTool
  pub stream : Bool

pub record ToolCallResp : Type 0 where
  pub id : Text
  pub name : Text
  pub arguments : Text

pub record ChatMessageResp : Type 0 where
  pub role : Role
  pub content : Text
  pub tool_calls : List ToolCallResp

-- The messages of the choices, and the usage.
pub record ChatAnswer : Type 0 where
  pub choices : List ChatMessageResp
  pub usage : Usage

-- `streamToolDelta`; the name and the arguments come together or not at all.
pub record StreamToolDelta : Type 0 where
  pub index : ℤ
  pub id : Text
  pub function : Option (Text × Text)

pub record StreamDelta : Type 0 where
  pub content : Text
  pub tool_calls : List StreamToolDelta

pub record StreamAnswer : Type 0 where
  pub choices : List StreamDelta
  pub usage : Option Usage

pub record ToolCallAccumulator : Type 0 where
  pub id : Text
  pub name : Text
  pub arg_chunks : List Text

-- What encoding/json makes of these types, `%q` of a text, and `json.Unmarshal` of a map.
pub record Json (F : Type 0) : Type 0 where
  pub marshal_input : Input → Result Text
  pub parse_input : Text → Result Input
  pub marshal_request : ChatRequest F → Result Text
  pub parse_answer : Text → Result ChatAnswer
  pub parse_chunk : Text → Option StreamAnswer
  pub quote : Text → Text

abbrev pub new_accumulator : ToolCallAccumulator
new_accumulator = record { id = []; name = []; arg_chunks = [] }

-- A value that is empty replaces nothing.
abbrev pub or_old : Text → Text → Text
or_old fresh old = if is_empty fresh then old else fresh

abbrev pub add_chunk : Text → List Text → List Text
add_chunk t l = if is_empty t then l else l ++ t ∷ []

unfoldable pub add_delta : StreamToolDelta → ToolCallAccumulator → ToolCallAccumulator
add_delta d a = elim d.function [
  | none ↦ record a { id = or_old d.id a.id }
  | some (name, args) ↦ record {
    id = or_old d.id a.id;
    name = or_old name a.name;
    arg_chunks = add_chunk args a.arg_chunks;
  }
]

unfoldable pub tool_defs_to_chat_tools : List ToolDef → List ChatTool
tool_defs_to_chat_tools [] = []
tool_defs_to_chat_tools (t ∷ ts) =
    record {
      kind = codes "function";
      name = t.name;
      description = t.description;
      parameters = t.parameters;
    }
    ∷ tool_defs_to_chat_tools ts

-- One item after the other; the first error ends the loop.
unfoldable pub each {ℓ κ} : {A : Type ℓ} {B : Type κ} → (A → Result B) → List A → Result (List B)
each f [] = ok []
each f (a ∷ l) = elim (f a) [
  | err e ↦ err e
  | ok b ↦ (elim (each f l) [ err e ↦ err e | ok bs ↦ ok (b ∷ bs) ])
]

module _ {F : Type 0} (json : Json F) where
  abbrev arguments_error : Text → Text
  arguments_error name = codes "openai: tool " ++ (json.quote name ++ codes " arguments: ")

  unfoldable pub to_model : ToolCallAccumulator → Result ToolCall
  to_model a = elim (parse_arguments json.parse_input (concat a.arg_chunks)) [
    | err e ↦ err e
    | ok args ↦ ok (record { id = a.id; name = a.name; arguments = args })
  ]

  call_to_openai : ToolCall → Result ChatToolCallMsg
  call_to_openai tc = elim (json.marshal_input tc.arguments) [
    | err e ↦ err (wrap (arguments_error tc.name) e)
    | ok args ↦
        ok (record { id = tc.id; kind = codes "function"; name = tc.name; arguments = args })
  ]

  message_to_openai : ChatMessage → Result ReqMessage
  unfolding call_to_openai
  message_to_openai m = elim (each call_to_openai m.tool_calls) [
    | err e ↦ err e
    | ok calls ↦ ok (record {
      role = role_text m.role;
      content = m.content;
      tool_calls = calls;
      tool_call_id = m.tool_call_id;
      name = m.name;
    })
  ]

  unfoldable pub messages_to_openai : List ChatMessage → Result (List ReqMessage)
  unfolding message_to_openai each
  messages_to_openai = each message_to_openai

  unfoldable pub build_chat_request :
      Text → List ChatMessage → CallOptions F → Bool → Result (ChatRequest F)
  build_chat_request model_name ms call stream = elim (messages_to_openai ms) [
    | err e ↦ err e
    | ok msgs ↦ ok (record {
      model = model_name;
      messages = msgs;
      temperature = call.temperature;
      max_tokens = call.max_tokens;
      top_p = call.top_p;
      stop = call.stop_words;
      tools = tool_defs_to_chat_tools call.tools;
      stream = stream;
    })
  ]

  call_from_openai : ToolCallResp → Result ToolCall
  call_from_openai tc = elim (parse_arguments json.parse_input tc.arguments) [
    | err e ↦ err (wrap (arguments_error tc.name) e)
    | ok args ↦ ok (record { id = tc.id; name = tc.name; arguments = args })
  ]

  -- `chatMessageRespToModel`
  unfoldable pub message_from_openai : ChatMessageResp → Result ChatMessage
  unfolding call_from_openai each
  message_from_openai m = elim (each call_from_openai m.tool_calls) [
    | err e ↦ err e
    | ok calls ↦ ok (record {
      role = m.role;
      content = m.content;
      tool_calls = calls;
      tool_call_id = [];
      name = [];
    })
  ]

  abbrev response_of : ChatAnswer → Result ChatResponse
  response_of a = elim a.choices [
    | [] ↦ err (Error.other (codes "openai: empty choices"))
    | c ∷ cs ↦ (elim (message_from_openai c) [
      | err e ↦ err e
      | ok msg ↦ ok (record { message = msg; usage = a.usage })
    ])
  ]

  abbrev decoded : Result ChatAnswer → Result ChatResponse
  decoded (err e) = err (wrap (codes "openai: decode response: ") e)
  decoded (ok a) = response_of a

-- The fields of a `Client` but for the HTTP client.
pub record Client : Type 0 where
  pub model_name : Text
  pub api_key : Text
  pub base_url : Text

abbrev authorization : Client → List (Text × Text) → List (Text × Text)
authorization c headers =
    if is_empty c.api_key
    then headers
    else headers ++ (codes "Authorization", codes "Bearer " ++ c.api_key) ∷ []

unfoldable pub chat_completions_url : Client → Text
chat_completions_url c = trim_slash c.base_url ++ codes "/chat/completions"

module _ {F W : Type 0} (json : Json F) (t : Transport W) where
  unfoldable pub generate : Client → List ChatMessage → CallOptions F → Exec W ChatResponse
  generate c ms call w = elim (build_chat_request json c.model_name ms call false) [
    | err e ↦ (err e, w)
    | ok body ↦ (elim (wrapped (codes "openai: marshal request: ") (json.marshal_request body)) [
      | err e ↦ (err e, w)
      | ok payload ↦
          (let (answer, w') =
              request (codes "openai") t (chat_completions_url c)
                (authorization c ((codes "Content-Type", codes "application/json") ∷ [])) payload
                w in
            (elim answer [ err e ↦ err e | ok text ↦ decoded json (json.parse_answer text) ], w'))
    ])
  ]
