-- ===== src/Memory.antt =====
-- memory/memory.go: the interface `Memory`, over whatever state an implementation keeps.
pub mod Store
pub mod Buffer
pub mod ContentStore
pub mod Compressor
pub mod Summary
use simple_agent_framework.Prelude.{List}
use simple_agent_framework.Errors.{Exec, Context}
use simple_agent_framework.Model.{ChatMessage}

pub record Memory (S : Type 0) : Type 0 where
  pub messages : Context → Exec S (List ChatMessage)
  pub add : Context → List ChatMessage → Exec S (Unit {0})
  pub clear : Context → Exec S (Unit {0})
