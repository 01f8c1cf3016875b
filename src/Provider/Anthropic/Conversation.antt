-- ===== src/Provider/Anthropic/Conversation.antt =====
-- model/provider/anthropic/anthropic.go: a conversation that can be sent is sent whole and in order.
use simple_agent_framework.Prelude.{
  ℕ, suc, Bool, true, false, not, ◌&&◌, if◌then◌else◌, List, [], ◌∷◌, ◌++◌,
}
use simple_agent_framework.Prelude.Text.{Text, is_empty, codes, text_eq, trim_space}
use simple_agent_framework.Model.{ChatMessage, ToolCall, Role, is_tool}
use simple_agent_framework.Provider.Anthropic.{
  Block, Content, ReqMsg, text_block, tool_use, tool_result, plain, blocks,
}

-- A message that can be sent: its role is known, and a tool message answers a call.
abbrev pub is_sendable : ChatMessage → Bool
is_sendable m = elim m.role [
  | Role.named t ↦ false
  | Role.tool ↦ not (is_empty m.tool_call_id)
  | _ ↦ true
]

abbrev pub all_sendable : List ChatMessage → Bool
all_sendable [] = true
all_sendable (m ∷ ms) = is_sendable m && all_sendable ms

-- What a request says, message by message: a text of the user, what the model said and called, or
-- the result of a call.
pub data Entry : Type 0 where
  said : Text → Entry
  spoke : Text → List ToolCall → Entry
  resulted : Text → Text → Entry

-- The text of the model's message; next to calls a blank one says nothing.
abbrev pub spoken : ChatMessage → Text
spoken m = elim m.tool_calls [
  | [] ↦ m.content
  | tc ∷ tcs ↦ if is_empty (trim_space m.content) then [] else m.content
]

-- What should be sent of a conversation: all but the system's messages, in order.
abbrev pub entries : List ChatMessage → List Entry
entries [] = []
entries (m ∷ ms) = elim m.role [
  | Role.system ↦ entries ms
  | Role.user ↦ Entry.said m.content ∷ entries ms
  | Role.assistant ↦ Entry.spoke (spoken m) m.tool_calls ∷ entries ms
  | Role.tool ↦ Entry.resulted m.tool_call_id m.content ∷ entries ms
  | Role.named t ↦ entries ms
]

-- The results among blocks, and what the messages of a request say.
abbrev pub results : List Block → List Entry
results [] = []
results (tool_result id t ∷ bs) = Entry.resulted id t ∷ results bs
results (text_block t ∷ bs) = results bs
results (tool_use id name input ∷ bs) = results bs

abbrev from_user : Content → List Entry
from_user (plain t) = Entry.said t ∷ []
from_user (blocks bs) = results bs

-- The texts among blocks, joined, and the calls.
abbrev pub block_texts : List Block → Text
block_texts [] = []
block_texts (text_block t ∷ bs) = t ++ block_texts bs
block_texts (tool_result id t ∷ bs) = block_texts bs
block_texts (tool_use id name input ∷ bs) = block_texts bs

abbrev pub block_calls : List Block → List ToolCall
block_calls [] = []
block_calls (tool_use id name input ∷ bs) =
    record { id = id; name = name; arguments = input } ∷ block_calls bs
block_calls (text_block t ∷ bs) = block_calls bs
block_calls (tool_result id t ∷ bs) = block_calls bs

abbrev pub from_model : Content → Entry
from_model (plain t) = Entry.spoke t []
from_model (blocks bs) = Entry.spoke (block_texts bs) (block_calls bs)

abbrev pub read_back : List ReqMsg → List Entry
read_back [] = []
read_back (r ∷ rs) =
    (if text_eq r.role (codes "user") then from_user r.content else from_model r.content ∷ [])
    ++ read_back rs

abbrev pub starts_with_tool : List ChatMessage → Bool
starts_with_tool [] = false
starts_with_tool (m ∷ ms) = is_tool m.role

-- How many messages should be sent: tool messages that follow one another share one.
abbrev pub turns : List ChatMessage → ℕ
turns [] = 0
turns (m ∷ ms) = elim m.role [
  | Role.system ↦ turns ms
  | Role.user ↦ suc (turns ms)
  | Role.assistant ↦ suc (turns ms)
  | Role.tool ↦ if starts_with_tool ms then turns ms else suc (turns ms)
  | Role.named t ↦ turns ms
]
