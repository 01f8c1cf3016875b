-- ===== src/Memory/Compressor.antt =====
-- memory/compressor.go: keeping a conversation within the model's context.
pub mod Truncate
pub mod Compact
pub mod Prune
use simple_agent_framework.Prelude.{
  ℕ, zero, suc, ◌+◌, ◌-◌, ◌*◌, ◌/◌, ltb, leb, if◌then◌else◌, Bool, true, false, not, ◌&&◌, List, [],
  ◌∷◌, ◌++◌, map, reverse, Option, none, some, length, take, drop,
}
use simple_agent_framework.Prelude.Text.{
  Text, codes, text_eq, is_empty, has_prefix, contains, to_lower, trim_space, decimal,
}
use simple_agent_framework.Errors.{Exec, ◌>>=◌, pure}
use simple_agent_framework.Model.{
  ChatMessage, Role, role_text, is_system, is_assistant, is_tool, message,
}
use simple_agent_framework.Memory.ContentStore.{ContentStore}

abbrev pub default_tool_result_max_len : ℕ
default_tool_result_max_len = 30000

abbrev pub default_recent_tool_result_tokens : ℕ
default_recent_tool_result_tokens = 40000

unfoldable pub estimate_tokens : Text → ℕ
estimate_tokens s = length s / 4

unfoldable pub estimate_messages_tokens : List ChatMessage → ℕ
unfolding estimate_tokens
estimate_messages_tokens [] = 0
estimate_messages_tokens (m ∷ ms) = estimate_tokens m.content + estimate_messages_tokens ms

unfoldable pub is_tool_failure_content : Text → Bool
is_tool_failure_content content =
    let t = trim_space content in
    let lower = to_lower t in
    if is_empty t
    then false
    else if has_prefix lower (codes "error")
    then true
    else contains lower (codes "error:")

abbrev is_empty_list {ℓ} : {A : Type ℓ} → List A → Bool
is_empty_list [] = true
is_empty_list (x ∷ xs) = false

unfoldable pub is_assistant_with_tool_calls : ChatMessage → Bool
is_assistant_with_tool_calls m = is_assistant m.role && not (is_empty_list m.tool_calls)

-- The test on two neighbours that both loops of `PruneConsecutiveFailures` make.
unfoldable pub is_failed_pair : ChatMessage → ChatMessage → Bool
is_failed_pair a t =
    is_assistant_with_tool_calls a && is_tool t.role && is_tool_failure_content t.content

-- The inner loop: the last failed pair of the run of a tool, and the messages behind the run.
unfoldable pub skip_run :
    Text
    → ChatMessage
    → ChatMessage
    → List ChatMessage
    → ChatMessage × ChatMessage × List ChatMessage
skip_run name a t (b ∷ u ∷ rest) =
    if is_failed_pair b u && text_eq u.name name
    then skip_run name b u rest
    else (a, t, b ∷ u ∷ rest)
skip_run name a t (b ∷ []) = (a, t, b ∷ [])
skip_run name a t [] = (a, t, [])

-- The outer loop; each round takes a message at least, so the length is enough fuel.
unfoldable pub prune_loop : ℕ → List ChatMessage → List ChatMessage
prune_loop zero l = l
prune_loop (suc n) [] = []
prune_loop (suc n) (a ∷ []) = a ∷ []
prune_loop (suc n) (a ∷ t ∷ rest) =
    let (x, y, behind) = skip_run t.name a t rest in
    let merged = x ∷ y ∷ prune_loop n behind in
    let kept = a ∷ prune_loop n (t ∷ rest) in if is_failed_pair a t then merged else kept

unfoldable pub prune_consecutive_failures : List ChatMessage → List ChatMessage
prune_consecutive_failures l = if ltb (length l) 2 then l else prune_loop (length l) l

-- The notice in the middle of a truncated result.
unfoldable pub truncation_notice : ℕ → ℕ → Text → Text
truncation_notice original max_len call_id =
    codes "\n\n... [content truncated] ...\n[Original length: "
    ++ (decimal original
        ++ (codes " chars, truncated to "
            ++ (decimal max_len
                ++ (codes " chars. Full content persisted with ID: "
                    ++ (call_id
                        ++ codes
                            ". Use tool 'fetch_full_result' with this ID to retrieve the complete content.]\n\n")))))

-- `content[:head] + ins + content[len(content)-tail:]`
abbrev cut : Text → ℕ → ℕ → Text → Text
cut content head tail ins = take head content ++ (ins ++ drop (length content - tail) content)

-- What `TruncateToolResult` returns for a content longer than `maxLen`.
unfoldable pub truncated : Text → ℕ → Text → Text
truncated content max_len call_id =
    let ins = truncation_notice (length content) max_len call_id in
    let budget = max_len - length ins in
    if ltb budget 2
    then (let head = max_len * 80 / 100 in
        let tail = max_len - head in
        if ltb (length content) (head + tail) then content else cut content head tail [])
    else (let head = budget * 80 / 100 in
        let tail = budget - head in
        if ltb (length content) (head + tail) then content else cut content head tail ins)

-- What the store returns is dropped.
abbrev persist : {S : Type 0} → Option (ContentStore S) → Text → Text → S → S
persist none key content s = s
persist (some c) key content s = (c.store key content s).1

unfoldable pub truncate_tool_result :
    {S : Type 0} → Text → ℕ → Option (ContentStore S) → Text → S → Text × S
truncate_tool_result content max_len store call_id s =
    if leb (length content) max_len
    then (content, s)
    else (truncated content max_len call_id, persist store call_id content s)

abbrev pub cleared : Text
cleared = codes "[Old tool result content cleared]"

-- A tool message whose content has not been cleared.
unfoldable pub is_live_result : ChatMessage → Bool
is_live_result m = is_tool m.role && not (text_eq m.content cleared)

-- The assignment of the inner loop: `ToolCalls` is dropped too.
unfoldable pub clear_result : ChatMessage → ChatMessage
unfolding is_live_result
clear_result m = if is_live_result m then record m { content = cleared; tool_calls = [] } else m

-- The loop from the newest message to the oldest.
unfoldable pub compact_loop : ℕ → ℕ → List ChatMessage → List ChatMessage
compact_loop budget running [] = []
compact_loop budget running (m ∷ older) =
    let tok = estimate_tokens m.content in
    let skipped = m ∷ compact_loop budget running older in
    let counted = m ∷ compact_loop budget (running + tok) older in
    if not (is_live_result m)
    then skipped
    else if leb (running + tok) budget
    then counted
    else map clear_result (m ∷ older)

unfoldable pub compact_stale_tool_results : List ChatMessage → ℕ → List ChatMessage
compact_stale_tool_results messages budget = reverse (compact_loop budget 0 (reverse messages))

-- `[role]: content` lines.
unfoldable pub serialize_messages : List ChatMessage → Text
unfolding role_text
serialize_messages [] = []
serialize_messages (m ∷ ms) =
    codes "["
    ++ (role_text m.role ++ (codes "]: " ++ (m.content ++ (codes "\n" ++ serialize_messages ms))))

pub record ConversationSummary : Type 0 where
  pub goals : Text
  pub instructions : Text
  pub findings : Text
  pub progress : Text
  pub reference_files : Text

unfoldable pub render_summary : ConversationSummary → Text
render_summary s =
    codes "## Goals\n\n"
    ++ (s.goals
        ++ (codes "\n\n## Instructions\n\n"
            ++ (s.instructions
                ++ (codes "\n\n## Findings\n\n"
                    ++ (s.findings
                        ++ (codes "\n\n## Progress\n\n"
                            ++ (s.progress
                                ++ (codes "\n\n## Reference files\n\n" ++ s.reference_files))))))))

-- `model.Generate` and `json.Unmarshal` into a `ConversationSummary` are what it calls; the ratio
-- test `float64(total)/float64(max) > maxContextRatio` is the field `exceeds`.
pub record ContextCompressor (S : Type 0) : Type 0 where
  pub generate : List ChatMessage → Exec S ChatMessage
  pub parse_summary : Text → Option ConversationSummary
  pub prompt : Text
  pub exceeds : ℕ → ℕ → Bool

unfoldable pub should_compress : {S : Type 0} → ContextCompressor S → List ChatMessage → ℕ → Bool
unfolding estimate_messages_tokens
should_compress c messages zero = false
should_compress c messages (suc n) = c.exceeds (estimate_messages_tokens messages) (suc n)

abbrev summary_or_raw : Option ConversationSummary → Text → ConversationSummary
summary_or_raw (some s) raw = s
summary_or_raw none raw = record {
  goals = raw;
  instructions = [];
  findings = [];
  progress = [];
  reference_files = [];
}

-- The loop that counts the leading system messages.
unfoldable pub leading_sys : List ChatMessage → ℕ
leading_sys [] = 0
leading_sys (m ∷ ms) = if is_system m.role then suc (leading_sys ms) else 0

-- `messages[lastAsst:]`, nothing where there is no assistant message.
unfoldable pub recent : List ChatMessage → List ChatMessage
recent [] = []
recent (m ∷ ms) = elim (recent ms) [
  | [] ↦ if is_assistant m.role then m ∷ ms else []
  | x ∷ xs ↦ x ∷ xs
]

unfoldable pub compress :
    {S : Type 0} → ContextCompressor S → List ChatMessage → Exec S (List ChatMessage)
unfolding serialize_messages render_summary leading_sys recent
compress c messages = do
  reply ←
      c.generate
        (message Role.user (c.prompt ++ (codes "\n\n---\n\n" ++ serialize_messages messages)) ∷ [])
  let raw = trim_space reply.content
  let text = render_summary (summary_or_raw (c.parse_summary raw) raw)
  pure (take (leading_sys messages) messages ++ (message Role.user text ∷ recent messages))
