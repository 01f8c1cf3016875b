-- ===== src/Model.antt =====
-- model/message.go: the messages of a conversation.
pub mod Value
pub mod Options
pub mod Stream
pub mod Retry
pub mod SlidingWindow
pub mod RateLimiter
use simple_agent_framework.Prelude.{ℕ, Bool, true, false, List, [], ◌∷◌, Option, none, some}
use simple_agent_framework.Prelude.Text.{Text, codes}
use simple_agent_framework.Model.Value.{Input}

-- `type Role string`: the four constants, and any other text.
pub data Role : Type 0 where
  system user assistant tool : Role
  named : Text → Role

pub record ToolCall : Type 0 where
  pub id : Text
  pub name : Text
  pub arguments : Input

pub record ChatMessage : Type 0 where
  pub role : Role
  pub content : Text
  pub tool_calls : List ToolCall
  pub tool_call_id : Text
  pub name : Text

pub record Usage : Type 0 where
  pub prompt_tokens : ℕ
  pub completion_tokens : ℕ
  pub total_tokens : ℕ

pub record ChatResponse : Type 0 where
  pub message : ChatMessage
  pub usage : Usage

-- `string(role)`
unfoldable pub role_text : Role → Text
role_text system = codes "system"
role_text user = codes "user"
role_text assistant = codes "assistant"
role_text tool = codes "tool"
role_text (named t) = t

-- `m.Role == model.RoleSystem`, and so on.
abbrev pub is_system : Role → Bool
is_system system = true
is_system _ = false

abbrev pub is_assistant : Role → Bool
is_assistant assistant = true
is_assistant _ = false

abbrev pub is_tool : Role → Bool
is_tool tool = true
is_tool _ = false

-- A message with a role and a content, the other fields at their zero values.
abbrev pub message : Role → Text → ChatMessage
message r t = record { role = r; content = t; tool_calls = []; tool_call_id = []; name = [] }
