-- ===== src/Interrupter.antt =====
-- interrupter/interrupter.go: what asks a human.
pub mod Hitl
pub mod Checkpoint
use simple_agent_framework.Prelude.{ℕ, Bool, Option}
use simple_agent_framework.Prelude.Text.{Text}
use simple_agent_framework.Errors.{Exec}
use simple_agent_framework.Model.Value.{Input}
use simple_agent_framework.Planner.{Action}

-- `type InterruptType int`: the three constants, and any other number.
pub data InterruptType : Type 0 where
  before_tool_call after_plan on_escalate : InterruptType
  unknown : ℕ → InterruptType

pub record InterruptEvent : Type 0 where
  pub kind : InterruptType
  pub action : Action

pub record HumanResponse : Type 0 where
  pub approved : Bool
  pub message : Text
  pub modified_input : Input

-- The interface `Interrupter`; a response may be nil.
pub record Interrupter (W : Type 0) : Type 0 where
  pub should_interrupt : InterruptEvent → Exec W Bool
  pub wait_for_human : InterruptEvent → Exec W (Option HumanResponse)
