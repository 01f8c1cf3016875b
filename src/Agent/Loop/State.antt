-- ===== src/Agent/Loop/State.antt =====
-- agent/loop.go: the variables of `runLoop`, and what it reaches outside itself.
use simple_agent_framework.Executor.{ExecResult}
use simple_agent_framework.Prelude.{ℕ, Bool, List, Option}
use simple_agent_framework.Prelude.Int.{ℤ}
use simple_agent_framework.Prelude.Text.{Text}
use simple_agent_framework.Errors.{Error, Exec}
use simple_agent_framework.Model.{ChatMessage}
use simple_agent_framework.Model.Stream.{StreamChunk}
use simple_agent_framework.Model.Value.{Input, Value}
use simple_agent_framework.Planner.{
  Planner, ExecutionMode, Action, PlanResult, PlanState, StepResult, ActionPlan, ToolInfo,
}
use simple_agent_framework.Interrupter.{Interrupter}
use simple_agent_framework.Evaluator.{Evaluator}
use simple_agent_framework.Hook.{Event}
use simple_agent_framework.Memory.ContentStore.{ContentStore}
use simple_agent_framework.Memory.Compressor.{ContextCompressor}
use simple_agent_framework.Agent.LoopDetector.{LoopDetector}

pub data LoopState : Type 0 where
  init plan_gen plan_review planning interrupt executing evaluating completing complete failed :
      LoopState

pub record ToolExecSnapshot : Type 0 where
  pub res : ExecResult
  pub tool_call_id : Text
  pub action : Action

pub record AgentResult : Type 0 where
  pub answer : Text
  pub messages : List ChatMessage
  pub error : Option Error

pub record AgentSnapshot : Type 0 where
  pub plan : Option PlanResult
  pub step_results : List StepResult
  pub iteration : ℕ
  pub state : LoopState

-- The local variables of `runLoop` that change, and the session's detector.
pub record Vars : Type 0 where
  pub state : LoopState
  pub iteration : ℕ
  pub history : List StepResult
  pub pending_action : Option Action
  pub pending_reasoning : Text
  pub pending_tool_call_id : Text
  pub plan_gen_first : Option PlanResult
  pub complete_answer : Text
  pub last_exec : Option ToolExecSnapshot
  pub eval_escalate : Bool
  pub validate_left : ℕ
  pub detector : LoopDetector

-- How `runLoop` ends: with a result and no error, with the context's error and no result, or by
-- the dereference of a nil pointer.
pub data Reply : Type 0 where
  result : AgentResult → Reply
  abort : Error → Reply
  crash : Reply

-- What a round of the loop leads to. The detector belongs to the session and outlives the run.
pub data Next : Type 0 where
  go : Vars → Next
  stop : Reply → LoopDetector → Next

-- The methods of `*planner.PlanAndSolvePlanner` that the loop calls.
pub record PlanAndSolve (W : Type 0) : Type 0 where
  pub current_plan : W → Option ActionPlan
  pub plan : Planner W
  pub replan : PlanState → Exec W (Unit {0})
  pub mark_step_done : ℤ → Text → W → W
  pub mark_step_failed : ℤ → Option Error → W → W

-- The session's memory under the run's context.
pub record SessionMemory (W : Type 0) : Type 0 where
  pub messages : Exec W (List ChatMessage)
  pub add : List ChatMessage → Exec W (Unit {0})
  pub clear : Exec W (Unit {0})

-- What the loop reads from the agent and the session, and what it calls. `W` is the state of all
-- that lies outside the loop's variables: memory, stores, tools, models, people and clocks.
pub record Env (W : Type 0) : Type 0 where
  pub ctx_err : W → Option Error
  pub emit : Event → W → W
  pub checkpoint_enabled : Bool
  pub save_checkpoint : AgentSnapshot → W → W
  pub memory : SessionMemory W
  pub build_prompt : W → Text
  pub tools : W → List ToolInfo
  pub planner : Option (Planner W)
  pub mode : ExecutionMode
  pub max_iterations : ℕ
  pub validate_output : Option (Text → Option (Text × Error))
  pub evaluator : Option (Evaluator W)
  pub eval_enabled : Bool
  pub plan_and_solve : Option (PlanAndSolve W)
  pub stream_on : Bool
  -- the model's `Stream`: the chunks that it yields, then the error of the iterator
  pub stream : Option (List ChatMessage → List ToolInfo → Exec W (List StreamChunk × Option Error))
  pub parse_json : Text → Option Value
  pub model_max_tokens : ℕ
  pub interrupter : Option (Interrupter W)
  pub compressor : Option (ContextCompressor W)
  pub execute : Action → Exec W ExecResult
  pub content_store : Option (ContentStore W)
  pub tool_result_max_len : ℕ
  pub recent_tool_result_tokens : ℕ
  pub loop_detection_threshold : ℕ
  pub hash_params : Input → Text
  pub now : W → ℕ × W
