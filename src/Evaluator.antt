-- ===== src/Evaluator.antt =====
-- evaluator/evaluator.go: what judges the progress of a run.
pub mod Composite
pub mod Judge
pub mod RuleBased
use simple_agent_framework.Prelude.{ℕ, List, Option}
use simple_agent_framework.Prelude.Text.{Text}
use simple_agent_framework.Errors.{Error, Exec}
use simple_agent_framework.Model.{ChatMessage}
use simple_agent_framework.Model.Value.{Input}

-- `type Decision int`: the five constants, and any other number.
pub data Decision : Type 0 where
  continue complete retry escalate replan : Decision
  unknown : ℕ → Decision

pub record StepResult : Type 0 where
  pub tool_name : Text
  pub input : Input
  pub output : Text
  pub error : Option Error

pub record EvalState : Type 0 where
  pub messages : List ChatMessage
  pub step_results : List StepResult
  pub iteration : ℕ

pub record EvalResult : Type 0 where
  pub decision : Decision
  pub feedback : Text

-- The interface `Evaluator`, over the state of the world.
abbrev pub Evaluator : Type 0 → Type 0
Evaluator W = EvalState → Exec W EvalResult
