-- ===== src/Planner.antt =====
-- planner/planner.go, planner/mode.go and the plan of planner/plan_and_solve.go.
pub mod PlanAndSolve
pub mod React
pub mod ToolInput
use simple_agent_framework.Prelude.{ℕ, List, Option}
use simple_agent_framework.Prelude.Int.{ℤ}
use simple_agent_framework.Prelude.Text.{Text}
use simple_agent_framework.Errors.{Error, Exec}
use simple_agent_framework.Model.{ChatMessage}
use simple_agent_framework.Model.Value.{Value, Input}

pub data ExecutionMode : Type 0 where
  react plan_and_solve : ExecutionMode

-- `type ActionType int`: the three constants, and any other number.
pub data ActionType : Type 0 where
  tool_call final_answer ask_human : ActionType
  unknown : ℕ → ActionType

pub record Action : Type 0 where
  pub kind : ActionType
  pub tool_name : Text
  pub tool_input : Input
  pub answer : Text

pub record ToolInfo : Type 0 where
  pub name : Text
  pub description : Text
  pub schema : Value

pub record StepResult : Type 0 where
  pub action : Action
  pub output : Text
  pub error : Option Error

pub record PlanState : Type 0 where
  pub messages : List ChatMessage
  pub tools : List ToolInfo
  pub history : List StepResult

pub record PlanResult : Type 0 where
  pub action : Action
  pub reasoning : Text

pub data StepStatus : Type 0 where
  pending running done failed skipped : StepStatus

pub record PlanStep : Type 0 where
  pub step_id : ℤ
  pub description : Text
  pub action : Action
  pub status : StepStatus
  pub result : Text

pub record ActionPlan : Type 0 where
  pub steps : List PlanStep
  pub current_step : ℕ

-- The interface `Planner`, over the state of the world.
abbrev pub Planner : Type 0 → Type 0
Planner W = PlanState → Exec W PlanResult
