-- ===== src/Agent/Loop/Stream/Spelled.antt =====
-- agent/loop.go and planner/react.go: a stream is planned as the answer that it spells would be.
use mathlib.Core.List.{append_assoc, append-nil}
use simple_agent_framework.Prelude.{
  ◌≡◌, refl, ap, ap₂, sym, ◌∙◌, List, [], ◌∷◌, ◌++◌, Option, none, some,
}
use simple_agent_framework.Prelude.Text.{Text}
use simple_agent_framework.Errors.{Error, Exec, Result, ok, err}
use simple_agent_framework.Model.{ToolCall, ChatMessage, ChatResponse}
use simple_agent_framework.Model.Value.{Value}
use simple_agent_framework.Model.Stream.{StreamChunk}
use simple_agent_framework.Planner.{PlanState, PlanResult, ToolInfo}
use simple_agent_framework.Planner.React.{
  Generate, plan_react, build_react_messages, tool_infos_to_tool_defs, planned,
}
use simple_agent_framework.Agent.Loop.State.{Env}
use simple_agent_framework.Agent.Loop.Effects.{◌>>=◌, ◌>>◌, pure, on_result, on_option}
use simple_agent_framework.Agent.Loop.Stream.{stream_react_plan, collect, stream_result}

-- The text that chunks spell.
abbrev pub spelled : List StreamChunk → Text
spelled [] = []
spelled (c ∷ cs) = c.delta ++ spelled cs

abbrev or_before : List ToolCall → List ToolCall → List ToolCall
or_before before [] = before
or_before before (tc ∷ tcs) = tc ∷ tcs

-- The tool calls of the last chunk that has some.
abbrev pub last_calls : List StreamChunk → List ToolCall
last_calls [] = []
last_calls (c ∷ cs) = or_before c.tool_calls (last_calls cs)

or_before_assoc :
    (a b c : List ToolCall) → or_before (or_before a b) c ≡ or_before a (or_before b c)
or_before_assoc a [] [] = refl
or_before_assoc a (x ∷ b) [] = refl
or_before_assoc a b (x ∷ c) = refl

none_before : (calls : List ToolCall) → or_before [] calls ≡ calls
none_before [] = refl
none_before (tc ∷ tcs) = refl

collect-spelled :
    (cs : List StreamChunk) (text : Text) (calls : List ToolCall)
    → collect cs text calls ≡ (text ++ spelled cs, or_before calls (last_calls cs))
unfolding collect
collect-spelled [] text calls = ap₂ (λ t l. (t, l)) (sym (append-nil text)) refl
collect-spelled (c ∷ cs) text calls =
    collect-spelled cs (text ++ c.delta) (or_before calls c.tool_calls)
    ∙ ap₂ (λ t l. (t, l)) (append_assoc text c.delta (spelled cs))
        (or_before_assoc calls c.tool_calls (last_calls cs))

stream_result-planned :
    (parse_json : Text → Option Value) (text : Text) (calls : List ToolCall)
    → stream_result parse_json (text, calls) ≡ planned parse_json text calls
unfolding stream_result planned
stream_result-planned parse_json text [] = refl
stream_result-planned parse_json text (tc ∷ tcs) = refl

module _ {W : Type 0} (env : Env W)
    (stream : List ChatMessage → List ToolInfo → Exec W (List StreamChunk × Option Error)) where
  -- What `streamReActPlan` answers where the stream opens: the error of the iterator, or else the plan.
  abbrev pub streamed : List StreamChunk → Option Error → Result PlanResult
  streamed cs (some e) = err e
  streamed cs none = ok (planned env.parse_json (spelled cs) (last_calls cs))

  stream_react_plan-streamed :
      (ps : PlanState) (w w' : W) (cs : List StreamChunk) (failed : Option Error)
      → stream ps.messages ps.tools w ≡ (ok (cs, failed), w')
      → (stream_react_plan env stream ps w).0 ≡ streamed cs failed
  unfolding stream_react_plan ◌>>=◌ ◌>>◌ pure on_result on_option
  stream_react_plan-streamed ps w w' cs none h = rw h (
      ap ok (
        ap (stream_result env.parse_json) (collect-spelled cs [] [])
        ∙ stream_result-planned env.parse_json (spelled cs) (or_before [] (last_calls cs))
        ∙ ap (planned env.parse_json (spelled cs)) (none_before (last_calls cs))))
  stream_react_plan-streamed ps w w' cs (some e) h = rw h refl

  -- Where the stream opens, `streamReActPlan` returns the error of the iterator, or else what the ReAct
  -- planner's `Plan` returns of a model that answers with the text that the chunks spell and the
  -- tool calls of the last chunk that has some, asked about the same messages and tools.
  pub stream_react_plan-plan :
      (ps : PlanState) (m : ChatMessage) (ms : List ChatMessage) (w w' v v' : W)
      (cs : List StreamChunk) (failed : Option Error) (generate : Generate W) (system_prompt : Text)
      (resp : ChatResponse)
      → ps.messages ≡ m ∷ ms
      → stream ps.messages ps.tools w ≡ (ok (cs, failed), w')
      → generate (m ∷ ms) (tool_infos_to_tool_defs ps.tools) v ≡ (ok (some resp), v')
      → resp.message.content ≡ spelled cs
      → resp.message.tool_calls ≡ last_calls cs
      → (stream_react_plan env stream ps w).0 ≡ (elim failed [
        | some e ↦ err e
        | none ↦
            (plan_react env.parse_json
              (record { model = some generate; system_prompt = system_prompt })
              ps
              v).0
      ])
  unfolding plan_react build_react_messages
  stream_react_plan-plan ps m ms w w' v v' cs (some e) generate sp resp asked opened answers text
        calls =
      stream_react_plan-streamed ps w w' cs (some e) opened
  stream_react_plan-plan ps m ms w w' v v' cs none generate sp resp asked opened answers text
        calls =
      stream_react_plan-streamed ps w w' cs none opened
      ∙ rw (build_react_messages, asked, answers, text, calls) refl
