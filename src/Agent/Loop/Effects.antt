-- ===== src/Agent/Loop/Effects.antt =====
-- agent/loop.go: the calls that its handlers share.
use simple_agent_framework.Prelude.{List, [], ◌∷◌, Option, none, some, if◌then◌else◌}
use simple_agent_framework.Prelude.Text.{Text}
use simple_agent_framework.Errors.{Error, Exec, Result, ok, err}
use simple_agent_framework.Model.{ChatMessage, Role, message}
use simple_agent_framework.Planner.{PlanState, StepResult}
use simple_agent_framework.Hook.{Event, error}
use simple_agent_framework.Agent.Loop.State.{Env, Vars, Next, stop, result, AgentSnapshot}

-- A piece of a handler: it changes the world and answers.
abbrev pub M : Type 0 → Type 0 → Type 0
M W A = W → A × W

module _ {W A B : Type 0} where
  infixl 5 ◌>>=◌
  unfoldable pub ◌>>=◌ : M W A → (A → M W B) → M W B
  ◌>>=◌ m f w = let (a, w') = m w in f a w'

module _ {W B : Type 0} where
  infixl 5 ◌>>◌
  unfoldable pub ◌>>◌ : M W (Unit {0}) → M W B → M W B
  unfolding ◌>>=◌
  m >> k = m >>= λ _. k

  unfoldable pub pure : B → M W B
  pure b w = (b, w)

  unfoldable pub read : (W → B) → M W B
  read f w = (f w, w)

-- An effect with no answer.
unfoldable pub change : {W : Type 0} → (W → W) → M W (Unit {0})
change f w = (tt, f w)

-- `_ = f(...)`: what the call returns is dropped.
unfoldable pub ignore : {W A : Type 0} → Exec W A → M W (Unit {0})
ignore m w = (tt, (m w).1)

-- The two ways on from a call that may fail, and from a value that may be nil.
unfoldable pub on_result : {A B : Type 0} → Result A → (Error → B) → (A → B) → B
on_result (ok a) f g = g a
on_result (err e) f g = f e

unfoldable pub on_option : {A B : Type 0} → Option A → B → (A → B) → B
on_option none b f = b
on_option (some a) b f = f a

-- `return &AgentResult{Error: err}, nil`
abbrev pub error_result : Vars → Error → Next
error_result v e = stop (result (record { answer = []; messages = []; error = some e })) v.detector

module _ {W : Type 0} (env : Env W) where
  unfoldable pub emit : Event → M W (Unit {0})
  emit e = change (env.emit e)

  -- `_ = a.emit(ctx, hook.EventError, ...)`, and the return of the error.
  unfoldable pub fail : Vars → Text → Error → M W Next
  fail v at e = do emit (error e at); pure (error_result v e)

  -- `_ = s.memory.Add(ctx, ...)`
  unfoldable pub remember : List ChatMessage → M W (Unit {0})
  remember ms = ignore (env.memory.add ms)

  -- The save runs beside the loop, under a context of its own; it is modelled at its start.
  unfoldable pub maybe_save_checkpoint : AgentSnapshot → M W (Unit {0})
  maybe_save_checkpoint snapshot =
      if env.checkpoint_enabled then change (env.save_checkpoint snapshot) else pure tt

  -- `s.buildPlanState(ctx, history)`
  unfoldable pub build_plan_state : List StepResult → Exec W PlanState
  build_plan_state history w =
      let sys = env.build_prompt w in
      let (r, w') = env.memory.messages w in
      let state = λ (mem : List ChatMessage).
        (let s : PlanState = record {
          messages = message Role.system sys ∷ mem;
          tools = env.tools w';
          history = history;
        } in
          s) in
      (on_result r (λ e. err e) (λ mem. ok (state mem)), w')

-- Opens what the handlers are put together from.
unfoldable pub effects : Unit {0}
unfolding ◌>>=◌ ◌>>◌ pure read on_result on_option fail
effects = tt
