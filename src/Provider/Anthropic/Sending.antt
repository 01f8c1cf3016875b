-- ===== src/Provider/Anthropic/Sending.antt =====
-- model/provider/anthropic/anthropic.go: `modelMessagesToAnthropic` sends a conversation whole and in
-- order, or refuses it.
use mathlib.Core.List.{append-nil}
use simple_agent_framework.Prelude.{
  ℕ, zero, suc, ◌≤◌, ◌≡◌, refl, ap, ◌∙◌, true, false, List, [], ◌∷◌, ◌++◌, length, Bool-cases, inl,
  inr, arith,
}
use simple_agent_framework.Prelude.Text.{Text, is_empty, codes, join, text_eq, trim_space}
use simple_agent_framework.Errors.{Error, Result, ok, err}
use simple_agent_framework.Model.{ChatMessage, ToolCall, Role, is_system, is_tool}
use simple_agent_framework.Provider.Anthropic.{
  Block, ReqMsg, tool_uses, plain, blocks, assistant_content, system_parts, user_msg, assistant_msg,
  convert, to_anthropic, unsupported,
}
use simple_agent_framework.Provider.Anthropic.Runs.{
  Ran, tool_run-Ran, Refused, at_once, later, tool_run-Refused,
}
use simple_agent_framework.Provider.Anthropic.Conversation.{
  Entry, is_sendable, all_sendable, entries, results, read_back, turns, spoken, block_texts,
  block_calls, from_model,
}

block_texts-tool_uses : (tcs : List ToolCall) → block_texts (tool_uses tcs) ≡ []
block_texts-tool_uses [] = refl
block_texts-tool_uses (tc ∷ tcs) = block_texts-tool_uses tcs

block_calls-tool_uses : (tcs : List ToolCall) → block_calls (tool_uses tcs) ≡ tcs
block_calls-tool_uses [] = refl
block_calls-tool_uses (tc ∷ tcs) = ap (◌∷◌ tc) (block_calls-tool_uses tcs)

from_model-assistant_content :
    (m : ChatMessage) → from_model (assistant_content m) ≡ Entry.spoke (spoken m) m.tool_calls
unfolding assistant_content
from_model-assistant_content m = by_calls m.tool_calls refl
  where
    Told : Type 0
    Told = from_model (assistant_content m) ≡ Entry.spoke (spoken m) m.tool_calls

    by_calls : (tcs : List ToolCall) → m.tool_calls ≡ tcs → Told
    by_calls [] e = rw (assistant_content, e) refl
    by_calls (tc ∷ tcs) e = elim (Bool-cases (is_empty (trim_space m.content))) [
      | inl blank ↦
          rw (assistant_content, e, blank)
            (simp (block_texts-tool_uses tcs, block_calls-tool_uses tcs))
      | inr kept ↦
          rw (assistant_content, e, kept)
            (simp (block_texts-tool_uses tcs, block_calls-tool_uses tcs, append-nil))
    ]

-- What `convert` makes of messages that can be sent.
record Sent (quote : Text → Text) (fuel : ℕ) (ms : List ChatMessage) (rs : List ReqMsg)
    : Type 0 where
  pub converts : convert quote fuel ms ≡ ok rs
  pub whole : read_back rs ≡ entries ms
  pub counted : length rs ≡ turns ms

module _ (quote : Text → Text) where
  -- A turn of the user or the model.
  sent_one :
      (fuel : ℕ) (m : ChatMessage) (ms : List ChatMessage) (rs : List ReqMsg)
      → is_tool m.role ≡ false
      → is_system m.role ≡ false
      → is_sendable m ≡ true
      → Sent quote fuel ms rs
      → (rs' : List ReqMsg) × Sent quote (suc fuel) (m ∷ ms) rs'
  unfolding convert text_eq assistant_content
  sent_one fuel m ms rs not_tool not_system h s = by_role m.role refl
    where
      by_role : (r : Role) → m.role ≡ r → (rs' : List ReqMsg) × Sent quote (suc fuel) (m ∷ ms) rs'
      by_role Role.user e = (
        user_msg (plain m.content) ∷ rs,
        record {
          converts = rw (convert, e, s.converts);
          whole = rw e (ap (◌∷◌ (Entry.said m.content)) s.whole);
          counted = rw e (ap suc s.counted);
        },
      )
      by_role Role.assistant e = (
        assistant_msg (assistant_content m) ∷ rs,
        record {
          converts = rw (convert, e, s.converts);
          whole = simp (e, from_model-assistant_content m, s.whole);
          counted = rw e (ap suc s.counted);
        },
      )
      by_role Role.tool e = ground (arith, not_tool, e)
      by_role Role.system e = ground (arith, not_system, e)
      by_role (Role.named t) e = ground (arith, h, e)

  sent_results :
      (fuel : ℕ) (m : ChatMessage) (ms rest : List ChatMessage) (bs : List Block) (rs : List ReqMsg)
      → m.role ≡ Role.tool
      → Ran (m ∷ ms) bs rest
      → Sent quote fuel rest rs
      → Sent quote (suc fuel) (m ∷ ms) (user_msg (blocks bs) ∷ rs)
  unfolding convert text_eq
  sent_results fuel m ms rest bs rs e ran s = record {
    converts = rw (convert, e, ran.runs, s.converts);
    whole = ap (◌++◌ (results bs)) s.whole ∙ ran.same;
    counted = ground (arith, s.counted, ran.counted);
  }

  convert-Sent :
      (fuel : ℕ) (ms : List ChatMessage)
      → length ms ≤ fuel
      → all_sendable ms ≡ true
      → (rs : List ReqMsg) × Sent quote fuel ms rs
  unfolding convert
  convert-Sent zero [] enough h = ([], record { converts = refl; whole = refl; counted = refl })
  convert-Sent (suc fuel) [] enough h =
      ([], record { converts = refl; whole = refl; counted = refl })
  convert-Sent zero (m ∷ ms) enough h = absurd (omega arith)
  convert-Sent (suc fuel) (m ∷ ms) enough h =
      by_role m.role refl (tool_run-Ran (m ∷ ms) h) (convert-Sent fuel)
    where
      by_role :
          (r : Role)
          → m.role ≡ r
          → (bs : List Block) × (rest : List ChatMessage) × Ran (m ∷ ms) bs rest
          → ((l : List ChatMessage)
              → length l ≤ fuel
              → all_sendable l ≡ true
              → (rs : List ReqMsg) × Sent quote fuel l rs)
          → (rs : List ReqMsg) × Sent quote (suc fuel) (m ∷ ms) rs
      by_role Role.tool e (bs, rest, ran) ih =
          let (rs, s) = ih rest (ground (arith, ran.shorter)) ran.sendable in
          (user_msg (blocks bs) ∷ rs, sent_results fuel m ms rest bs rs e ran s)
      by_role Role.system e ran ih =
          let (rs, s) = ih ms (omega arith) (ground arith) in
          (
            rs,
            record {
              converts = rw (convert, e, s.converts);
              whole = rw e s.whole;
              counted = rw e s.counted;
            },
          )
      by_role Role.user e ran ih =
          let (rs, s) = ih ms (omega arith) (ground arith) in
          sent_one fuel m ms rs (rw e) (rw e) (rw e) s
      by_role Role.assistant e ran ih =
          let (rs, s) = ih ms (omega arith) (ground arith) in
          sent_one fuel m ms rs (rw e) (rw e) (rw e) s
      by_role (Role.named t) e ran ih = absurd (ground (arith, h, e))

  convert-refuses :
      (fuel : ℕ) (ms : List ChatMessage)
      → length ms ≤ fuel
      → all_sendable ms ≡ false
      → (e : Error) × (convert quote fuel ms ≡ err e)
  unfolding convert
  convert-refuses zero [] enough h = ground (arith, h)
  convert-refuses (suc fuel) [] enough h = ground (arith, h)
  convert-refuses zero (m ∷ ms) enough h = absurd (omega arith)
  convert-refuses (suc fuel) (m ∷ ms) enough h =
      by_role m.role refl (tool_run-Refused (m ∷ ms) h) (convert-refuses fuel)
    where
      Ends : Type 0
      Ends = (e : Error) × (convert quote (suc fuel) (m ∷ ms) ≡ err e)

      Below : Type 0
      Below =
          (l : List ChatMessage)
          → length l ≤ fuel
          → all_sendable l ≡ false
          → (e : Error) × (convert quote fuel l ≡ err e)

      by_run : m.role ≡ Role.tool → Refused (m ∷ ms) → Below → Ends
      by_run e (at_once x failed) ih = (x, rw (convert, e, failed))
      by_run e (later bs rest runs bad shorter) ih =
          let (x, failed) = ih rest (ground arith) bad in (x, rw (convert, e, runs, failed))

      by_role : (r : Role) → m.role ≡ r → Refused (m ∷ ms) → Below → Ends
      by_role Role.tool e ref ih = by_run e ref ih
      by_role (Role.named t) e ref ih = (unsupported quote m.role, ground (arith, e))
      by_role Role.system e ref ih =
          let (x, failed) = ih ms (omega arith) (ground arith) in (x, rw (convert, e, failed))
      by_role Role.user e ref ih =
          let (x, failed) = ih ms (omega arith) (ground arith) in (x, rw (convert, e, failed))
      by_role Role.assistant e ref ih =
          let (x, failed) = ih ms (omega arith) (ground arith) in (x, rw (convert, e, failed))

  -- Whether a conversation is refused, and what is sent of it: the system's messages joined as the
  -- system text, and a list that tells all other messages in order, in which tool messages that
  -- follow one another share one.
  abbrev pub Sends : List ChatMessage → Result (Text × List ReqMsg) → Type 0
  Sends ms (err e) = all_sendable ms ≡ false
  Sends ms (ok (system, rs)) =
      (all_sendable ms ≡ true)
      × (system ≡ join (codes "\n\n") (system_parts ms))
      × (read_back rs ≡ entries ms)
      × (length rs ≡ turns ms)

  -- A conversation whose roles are all known and whose tool messages all name their call is sent
  -- whole: the system's messages as the system text, and the others in their order, where tool
  -- messages that follow one another share a message. Any other conversation is refused.
  pub to_anthropic-Sends : (ms : List ChatMessage) → Sends ms (to_anthropic quote ms)
  unfolding to_anthropic
  to_anthropic-Sends ms = elim (Bool-cases (all_sendable ms)) [
    | inl h ↦
        (let (rs, s) = convert-Sent (length ms) ms (omega arith) h in
          rw (to_anthropic, s.converts) (h, refl, s.whole, s.counted))
    | inr h ↦
        (let (e, failed) = convert-refuses (length ms) ms (omega arith) h in
          rw (to_anthropic, failed) h)
  ]
