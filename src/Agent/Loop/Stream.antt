-- ===== src/Agent/Loop/Stream.antt =====
-- agent/loop.go: `streamReActPlan`.
pub mod Spelled
use simple_agent_framework.Prelude.{
  Bool, false, ◌==◌, ◌||◌, List, [], ◌∷◌, ◌++◌, Option, none, some, if◌then◌else◌,
}
use simple_agent_framework.Prelude.Text.{Text, trim_space, is_empty}
use simple_agent_framework.Errors.{Error, Exec, ok, err}
use simple_agent_framework.Model.{ToolCall, ChatMessage}
use simple_agent_framework.Model.Value.{Value, str, obj, Fields, end, field, Input}
use simple_agent_framework.Planner.{tool_call, final_answer, PlanResult, PlanState, ToolInfo}
use simple_agent_framework.Planner.ToolInput.{normalize_tool_input}
use simple_agent_framework.Hook.{stream_chunk}
use simple_agent_framework.Model.Stream.{StreamChunk}
use simple_agent_framework.Agent.Loop.State.{Env}
use simple_agent_framework.Agent.Loop.Effects.{M, ◌>>=◌, ◌>>◌, pure, on_result, on_option, emit}

-- The text of the deltas, and the tool calls of the last chunk that has some.
unfoldable pub collect : List StreamChunk → Text → List ToolCall → Text × List ToolCall
collect [] reasoning calls = (reasoning, calls)
collect (c ∷ cs) reasoning calls =
    collect cs (reasoning ++ c.delta) (elim c.tool_calls [ [] ↦ calls | x ∷ xs ↦ x ∷ xs ])

unfoldable pub stream_result : (Text → Option Value) → Text × List ToolCall → PlanResult
unfolding normalize_tool_input
stream_result parse_json (reasoning, []) =
    let text = trim_space reasoning in
    let r : PlanResult = record {
      action = record { kind = final_answer; tool_name = []; tool_input = none; answer = text };
      reasoning = text;
    } in
    r
stream_result parse_json (reasoning, tc ∷ tcs) = record {
  action = record {
    kind = tool_call;
    tool_name = trim_space tc.name;
    tool_input = normalize_tool_input parse_json tc.arguments;
    answer = [];
  };
  reasoning = trim_space reasoning;
}

module _ {W : Type 0} (env : Env W) where
  emit_chunks : List StreamChunk → M W (Unit {0})
  emit_chunks [] = pure tt
  emit_chunks (c ∷ cs) = do
    if is_empty c.delta then pure tt else emit env (stream_chunk c.delta)
    emit_chunks cs

  unfoldable pub stream_react_plan :
      (List ChatMessage → List ToolInfo → Exec W (List StreamChunk × Option Error))
      → PlanState
      → Exec W PlanResult
  unfolding emit_chunks collect stream_result
  stream_react_plan stream ps = do
    opened ← stream ps.messages ps.tools
    on_result opened (λ e. pure (err e))
        λ answer. do
          let (chunks, failed) = answer
          emit_chunks chunks
          on_option failed (pure (ok (stream_result env.parse_json (collect chunks [] []))))
              λ e. pure (err e)
