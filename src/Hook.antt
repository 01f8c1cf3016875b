-- ===== src/Hook.antt =====
-- hook/hook.go and hook/payload.go: what the loop tells its observers. Times are left out.
use simple_agent_framework.Prelude.{ℕ, List, [], ◌∷◌, ◌++◌, Option, none, some}
use simple_agent_framework.Prelude.Text.{Text}
use simple_agent_framework.Errors.{Error, Context, Exec, pure, ◌>>◌}
use simple_agent_framework.Model.Value.{Input}

-- The events that the loop emits, with their payloads.
pub data Event : Type 0 where
  plan_start : ℕ → Event
  plan_done : ℕ → Text → Text → Event
  tool_call_start : Text → Input → Event
  tool_call_done : Text → Text → Option Error → Event
  eval_start : ℕ → ℕ → Event
  eval_done : ℕ → ℕ → Text → Text → Event
  loop_complete : Event
  error : Error → Text → Event
  stream_chunk : Text → Event

-- `OnEvent`, of an observer with a state in W.
abbrev pub Hook : Type 0 → Type 0
Hook W = Context → Event → Exec W (Unit {0})

module _ {W : Type 0} where
  abbrev on_each : List (Hook W) → Hook W
  on_each [] ctx event = pure tt
  on_each (h ∷ hooks) ctx event = h ctx event >> on_each hooks ctx event

pub record HookManager (W : Type 0) : Type 0 where
  pub hooks : List (Hook W)

module _ {W : Type 0} where
  abbrev new_hook_manager : HookManager W
  new_hook_manager = record { hooks = [] }

  -- `Add`; a nil hook is passed over.
  abbrev add_hook : Option (Hook W) → HookManager W → HookManager W
  add_hook none m = m
  add_hook (some h) m = record m { hooks = m.hooks ++ h ∷ [] }

  -- `Emit`: the first error ends the round.
  unfoldable pub emit_to : HookManager W → Hook W
  emit_to m = on_each m.hooks
