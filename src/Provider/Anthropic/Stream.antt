-- ===== src/Provider/Anthropic/Stream.antt =====
-- model/provider/anthropic/anthropic.go: `Stream`, what is sent of the lines of the answer.
use simple_agent_framework.Prelude.{
  ℕ, ltb, true, ◌||◌, if◌then◌else◌, List, [], ◌∷◌, ◌++◌, Option, none, some,
}
use simple_agent_framework.Prelude.Int.{ℤ}
use simple_agent_framework.Prelude.Text.{Text, codes, is_empty, text_eq}
use simple_agent_framework.Errors.{Error, Result, ok, err}
use simple_agent_framework.Model.{ToolCall, Usage}
use simple_agent_framework.Model.Stream.{StreamChunk, text_chunk}
use simple_agent_framework.Provider.Transport.{
  Line, Sent, LineKind, line_kind, wrap, find_index, update_index, by_index, concat,
  parse_arguments,
}
use simple_agent_framework.Provider.Anthropic.Answer.{Json, AnthropicUsage, usage_of}

-- What encoding/json reads in the data of a line: an event by its type, with the fields that the loop
-- takes of it. `ignored` is data that cannot be read, or an event that nothing is done for.
pub data StreamEvent : Type 0 where
  ignored : StreamEvent
  failure : Text → StreamEvent
  message_start : ℕ → StreamEvent
  content_block_start : ℤ → Text → Text → Text → StreamEvent
  text_delta : ℤ → Text → StreamEvent
  input_json_delta : ℤ → Text → StreamEvent
  message_delta : ℕ → StreamEvent

-- The text of a block is written and never read, and is left out.
pub record StreamBlockAccum : Type 0 where
  pub kind : Text
  pub id : Text
  pub name : Text
  pub json_parts : List Text

-- The variables of the loop: the chunks that are sent, `blocks` and `usageAcc`.
pub record Progress : Type 0 where
  pub sent : List StreamChunk
  pub blocks : List (ℤ × StreamBlockAccum)
  pub usage_acc : AnthropicUsage

abbrev pub no_progress : Progress
no_progress = record {
  sent = [];
  blocks = [];
  usage_acc = record { input_tokens = 0; output_tokens = 0 };
}

-- A piece of text of a block that has been started.
abbrev text_chunks : Option StreamBlockAccum → Text → List StreamChunk
text_chunks none t = []
text_chunks (some b) t = if is_empty t then [] else text_chunk t ∷ []

abbrev with_part : Text → StreamBlockAccum → StreamBlockAccum
with_part t b = record b {
  json_parts = if is_empty t then b.json_parts else b.json_parts ++ t ∷ [];
}

-- A piece for a block that has not been started is passed over.
abbrev with_piece :
    ℤ → Text → Option StreamBlockAccum → List (ℤ × StreamBlockAccum) → List (ℤ × StreamBlockAccum)
with_piece i t none blocks = blocks
with_piece i t (some b) blocks = update_index i b (with_part t) blocks

-- One event, but for a failure, which ends the loop.
unfoldable pub take_event : StreamEvent → Progress → Progress
take_event StreamEvent.ignored p = p
take_event (StreamEvent.failure message) p = p
take_event (StreamEvent.message_start n) p = record p {
  usage_acc = record { input_tokens = n; output_tokens = p.usage_acc.output_tokens };
}
take_event (StreamEvent.content_block_start i kind id name) p =
    let started : StreamBlockAccum = record {
      kind = kind;
      id = id;
      name = name;
      json_parts = [];
    } in
    record p { blocks = update_index i started (λ old. started) p.blocks }
take_event (StreamEvent.text_delta i t) p = record p {
  sent = p.sent ++ text_chunks (find_index i p.blocks) t;
}
take_event (StreamEvent.input_json_delta i t) p = record p {
  blocks = with_piece i t (find_index i p.blocks) p.blocks;
}
take_event (StreamEvent.message_delta n) p = record p {
  usage_acc = record { input_tokens = p.usage_acc.input_tokens; output_tokens = n };
}

abbrev failure_of : StreamEvent → Option Error
failure_of (StreamEvent.failure message) = some (Error.other (codes "anthropic: " ++ message))
failure_of _ = none

module _ {F : Type 0} (json : Json F) (parse_event : Text → StreamEvent) where
  unfoldable pub read_lines : List Line → Progress → Progress × Option Error
  unfolding take_event
  read_lines [] p = (p, none)
  read_lines (l ∷ ls) p = elim l.cancelled [
    | some e ↦ (p, some e)
    | none ↦ (elim (line_kind (λ d. text_eq d (codes "[DONE]")) l.text) [
      | LineKind.skipped ↦ read_lines ls p
      | LineKind.end_of_stream ↦ (p, none)
      | LineKind.payload text ↦ (elim (failure_of (parse_event text)) [
        | some e ↦ (p, some e)
        | none ↦ read_lines ls (take_event (parse_event text) p)
      ])
    ])
  ]

  abbrev with_call : ToolCall → Result (List ToolCall) → Result (List ToolCall)
  with_call tc (ok tcs) = ok (tc ∷ tcs)
  with_call tc (err e) = err e

  -- The calls of the blocks that are tool uses, in the order of their indices.
  unfoldable pub finalized : List (ℤ × StreamBlockAccum) → Result (List ToolCall)
  finalized [] = ok []
  finalized ((i, b) ∷ bs) =
      let others = finalized bs in
      if text_eq b.kind (codes "tool_use")
      then elim (parse_arguments json.parse_input (concat b.json_parts)) [
        | err e ↦
            err (wrap (codes "anthropic: tool " ++ (json.quote b.name ++ codes " arguments: ")) e)
        | ok args ↦ with_call (record { id = b.id; name = b.name; arguments = args }) others
      ]
      else others

  -- No usage is reported where neither number is positive.
  abbrev reported : AnthropicUsage → Option Usage
  reported u = if ltb 0 u.input_tokens || ltb 0 u.output_tokens then some (usage_of u) else none

  abbrev finish : Progress → Result (List ToolCall) → Sent
  finish p (err e) = record { chunks = p.sent; error = some e }
  finish p (ok calls) = record {
    chunks =
        p.sent
        ++ record { delta = []; tool_calls = calls; done = true; usage = reported p.usage_acc }
          ∷ [];
    error = none;
  }

  abbrev ended : Option Error → Progress × Option Error → Sent
  ended scan_error (p, some e) = record { chunks = p.sent; error = some e }
  ended (some e) (p, none) = record {
    chunks = p.sent;
    error = some (wrap (codes "anthropic: stream read: ") e);
  }
  ended none (p, none) = finish p (finalized (by_index p.blocks))

  -- What the goroutine of `Stream` sends of the lines, and of the error that reading ended with.
  unfoldable pub send_stream : List Line → Option Error → Sent
  unfolding read_lines finalized
  send_stream lines scan_error = ended scan_error (read_lines lines no_progress)
