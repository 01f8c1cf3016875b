-- ===== src/Provider/OpenAi/Stream.antt =====
-- model/provider/openai/openai.go: `Stream`, what is sent of the lines of the answer.
use simple_agent_framework.Prelude.{true, if◌then◌else◌, List, [], ◌∷◌, ◌++◌, Option, none, some}
use simple_agent_framework.Prelude.Int.{ℤ}
use simple_agent_framework.Prelude.Text.{Text, codes, is_empty, trim_space, text_eq, decimal_int}
use simple_agent_framework.Errors.{Error, Result, ok, err}
use simple_agent_framework.Model.{ToolCall, Usage}
use simple_agent_framework.Model.Stream.{StreamChunk, text_chunk}
use simple_agent_framework.Provider.Transport.{
  Line, Sent, LineKind, line_kind, wrap, wrapped, update_index, by_index,
}
use simple_agent_framework.Provider.OpenAi.{
  Json, StreamAnswer, StreamToolDelta, ToolCallAccumulator, new_accumulator, add_delta, to_model,
  each,
}

-- The variables of the loop: the chunks that are sent, `accum` and `lastUsage`.
pub record Progress : Type 0 where
  pub sent : List StreamChunk
  pub accum : List (ℤ × ToolCallAccumulator)
  pub last_usage : Option Usage

abbrev pub no_progress : Progress
no_progress = record { sent = []; accum = []; last_usage = none }

unfoldable pub add_deltas :
    List StreamToolDelta → List (ℤ × ToolCallAccumulator) → List (ℤ × ToolCallAccumulator)
add_deltas [] accum = accum
add_deltas (d ∷ ds) accum = add_deltas ds (update_index d.index new_accumulator (add_delta d) accum)

abbrev or_last {ℓ} : {A : Type ℓ} → Option A → Option A → Option A
or_last (some u) old = some u
or_last none old = old

-- What is sent of a text that is not empty.
abbrev pub text_chunks : Text → List StreamChunk
text_chunks t = if is_empty t then [] else text_chunk t ∷ []

unfoldable pub take_chunk : StreamAnswer → Progress → Progress
unfolding add_deltas
take_chunk a p = elim a.choices [
  | [] ↦ record p { last_usage = or_last a.usage p.last_usage }
  | c ∷ cs ↦ record {
    sent = p.sent ++ text_chunks c.content;
    accum = add_deltas c.tool_calls p.accum;
    last_usage = or_last a.usage p.last_usage;
  }
]

module _ {F : Type 0} (json : Json F) where
  -- A chunk that cannot be read is passed over.
  abbrev take_data : Text → Progress → Progress
  take_data text p = elim (json.parse_chunk text) [ none ↦ p | some a ↦ take_chunk a p ]

  unfoldable pub read_lines : List Line → Progress → Progress × Option Error
  read_lines [] p = (p, none)
  read_lines (l ∷ ls) p = elim l.cancelled [
    | some e ↦ (p, some e)
    | none ↦ (elim (line_kind (λ d. text_eq (trim_space d) (codes "[DONE]")) l.text) [
      | LineKind.skipped ↦ read_lines ls p
      | LineKind.end_of_stream ↦ (p, none)
      | LineKind.payload text ↦ read_lines ls (take_data text p)
    ])
  ]

  finalized : ℤ × ToolCallAccumulator → Result ToolCall
  finalized (i, a) =
      wrapped (codes "openai: finalize tool call " ++ (decimal_int i ++ codes ": "))
        (to_model json a)

  abbrev finish : Progress → Result (List ToolCall) → Sent
  finish p (err e) = record { chunks = p.sent; error = some e }
  finish p (ok calls) = record {
    chunks =
        p.sent ++ record { delta = []; tool_calls = calls; done = true; usage = p.last_usage } ∷ [];
    error = none;
  }

  abbrev ended : Option Error → Progress × Option Error → Sent
  ended scan_error (p, some e) = record { chunks = p.sent; error = some e }
  ended (some e) (p, none) = record {
    chunks = p.sent;
    error = some (wrap (codes "openai: stream read: ") e);
  }
  ended none (p, none) = finish p (each finalized (by_index p.accum))

  -- What the goroutine of `Stream` sends of the lines, and of the error that reading ended with.
  unfoldable pub send_stream : List Line → Option Error → Sent
  unfolding read_lines finalized each take_chunk
  send_stream lines scan_error = ended scan_error (read_lines lines no_progress)
