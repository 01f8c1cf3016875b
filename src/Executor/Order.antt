-- ===== src/Executor/Order.antt =====
-- executor/parallel.go: what is true of a batch whatever order its goroutines run in.
use simple_agent_framework.Prelude.{
  ℕ, ◌+◌, ◌≤◌, ◌≡◌, refl, ap, sym, ◌∙◌, ◌⊎◌, inl, inr, List, [], ◌∷◌, Option, none, some, arith,
}
use simple_agent_framework.Prelude.Int.{ℤ}
use simple_agent_framework.Prelude.Text.{Text}
use simple_agent_framework.Errors.{Error, Context}
use simple_agent_framework.Planner.{Action}
use simple_agent_framework.Executor.{
  ExecResult, Task, Job, Batch, all_waiting, start_batch, Moves, Step, Reaches, Results,
}

-- The places of the semaphore that are taken, and the actions of the jobs.
abbrev place : Task → ℕ
place Task.waiting = 0
place Task.running = 1
place (Task.holding r) = 1
place (Task.finished r) = 0

abbrev pub holders : List Job → ℕ
holders [] = 0
holders (j ∷ js) = place j.task + holders js

abbrev pub actions_of : List Job → List Action
actions_of [] = []
actions_of (j ∷ js) = j.action ∷ actions_of js

pub holders-all_waiting : (acts : List Action) → holders (all_waiting acts) ≡ 0
holders-all_waiting [] = refl
holders-all_waiting (a ∷ acts) = omega (arith, holders-all_waiting acts)

actions_of-all_waiting : (acts : List Action) → actions_of (all_waiting acts) ≡ acts
actions_of-all_waiting [] = refl
actions_of-all_waiting (a ∷ acts) = ap (◌∷◌ a) (actions_of-all_waiting acts)

module _ (Answers : Action → Text → Option Error → Type 0) where
  -- Where a result comes from: a call of the tool, or a context that is done.
  abbrev pub Source : Context → Action → ExecResult → Type 0
  Source ctx a r =
      (r.tool_name ≡ a.tool_name)
      × (Answers a r.output r.error ⊎ ((e : Error) × (ctx ≡ some e) × (r.error ≡ some e)))

  abbrev TaskSource : Context → Action → Task → Type 0
  TaskSource ctx a Task.waiting = Unit {0}
  TaskSource ctx a Task.running = Unit {0}
  TaskSource ctx a (Task.holding r) = Source ctx a r
  TaskSource ctx a (Task.finished r) = Source ctx a r

  abbrev Sources : Context → List Job → Type 0
  Sources ctx [] = Unit {0}
  Sources ctx (j ∷ js) = TaskSource ctx j.action j.task × Sources ctx js

  -- Each action has its result, at its place.
  abbrev pub AllSources : Context → List Action → List ExecResult → Type 0
  AllSources ctx [] [] = Unit {0}
  AllSources ctx [] (r ∷ rs) = ⊥
  AllSources ctx (a ∷ acts) [] = ⊥
  AllSources ctx (a ∷ acts) (r ∷ rs) = Source ctx a r × AllSources ctx acts rs

  record Moved (limit : ℕ) (ctx : Context) (sem : ℕ) (js : List Job) (sem' : ℕ) (js' : List Job)
      : Type 0 where
    pub same : actions_of js' ≡ actions_of js
    pub counted : sem' + holders js ≡ sem + holders js'
    pub bounded : sem ≤ limit → sem' ≤ limit
    pub sources : Sources ctx js → Sources ctx js'

  Moves-Moved :
      {limit : ℕ} {ctx : Context} {sem sem' : ℕ} {js js' : List Job}
      → Moves Answers limit ctx sem js sem' js'
      → Moved limit ctx sem js sem' js'
  Moves-Moved (Moves.acquire room) = record {
    same = refl;
    counted = omega arith;
    bounded = λ h. omega arith;
    sources = λ (_, s). (tt, s);
  }
  Moves-Moved (Moves.give_up {e} done) = record {
    same = refl;
    counted = refl;
    bounded = λ h. h;
    sources = λ (_, s). ((refl, inr (e, done, refl)), s);
  }
  Moves-Moved (Moves.answer ans) = record {
    same = refl;
    counted = refl;
    bounded = λ h. h;
    sources = λ (_, s). ((refl, inl ans), s);
  }
  Moves-Moved Moves.release = record {
    same = refl;
    counted = omega arith;
    bounded = λ h. omega arith;
    sources = λ s. s;
  }
  Moves-Moved (Moves.later {j} m) =
      let moved = Moves-Moved m in
      record {
        same = ap (◌∷◌ j.action) moved.same;
        counted = omega (arith, moved.counted);
        bounded = moved.bounded;
        sources = λ (s, ss). (s, moved.sources ss);
      }

  -- What holds of a batch of these actions at any time.
  pub record IsOrderly (acts : List Action) (b : Batch) : Type 0 where
    pub same : actions_of b.jobs ≡ acts
    pub counted : b.sem ≡ holders b.jobs
    pub bounded : b.sem ≤ b.limit
    pub sources : Sources b.ctx b.jobs

  all_waiting-Sources : (ctx : Context) (acts : List Action) → Sources ctx (all_waiting acts)
  all_waiting-Sources ctx [] = tt
  all_waiting-Sources ctx (a ∷ acts) = (tt, all_waiting-Sources ctx acts)

  pub start-IsOrderly :
      (limit : ℤ) (ctx : Context) (acts : List Action) → IsOrderly acts (start_batch limit ctx acts)
  unfolding start_batch
  start-IsOrderly limit ctx acts = record {
    same = actions_of-all_waiting acts;
    counted = sym (holders-all_waiting acts);
    bounded = omega arith;
    sources = all_waiting-Sources ctx acts;
  }

  -- A result of a context that is done stays one; before it is done there is none.
  Source-cancel : (e : Error) (a : Action) (r : ExecResult) → Source none a r → Source (some e) a r
  Source-cancel e a r (named, inl ans) = (named, inl ans)
  Source-cancel e a r (named, inr (x, never, failed)) = absurd (cc (never))

  TaskSource-cancel :
      (e : Error) (a : Action) (t : Task) → TaskSource none a t → TaskSource (some e) a t
  TaskSource-cancel e a Task.waiting s = s
  TaskSource-cancel e a Task.running s = s
  TaskSource-cancel e a (Task.holding r) s = Source-cancel e a r s
  TaskSource-cancel e a (Task.finished r) s = Source-cancel e a r s

  Sources-cancel : (e : Error) (js : List Job) → Sources none js → Sources (some e) js
  Sources-cancel e [] s = s
  Sources-cancel e (j ∷ js) (s, ss) =
      (TaskSource-cancel e j.action j.task s, Sources-cancel e js ss)

  Sources-cancelled :
      {ctx : Context} (e : Error) (js : List Job)
      → ctx ≡ none
      → Sources ctx js
      → Sources (some e) js
  Sources-cancelled e js live = rw live (Sources-cancel e js)

  Step-IsOrderly :
      {acts : List Action} {b c : Batch} → Step Answers b c → IsOrderly acts b → IsOrderly acts c
  Step-IsOrderly (Step.moves m) o =
      let moved = Moves-Moved m in
      record {
        same = moved.same ∙ o.same;
        counted = omega (arith, moved.counted, o.counted);
        bounded = moved.bounded o.bounded;
        sources = moved.sources o.sources;
      }
  Step-IsOrderly (Step.cancel {b} e live) o = record {
    same = o.same;
    counted = o.counted;
    bounded = o.bounded;
    sources = Sources-cancelled e b.jobs live o.sources;
  }

  pub reaches-IsOrderly :
      {acts : List Action} {b c : Batch} → Reaches Answers b c → IsOrderly acts b → IsOrderly acts c
  reaches-IsOrderly Reaches.start o = o
  reaches-IsOrderly (Reaches.step r s) o = Step-IsOrderly s (reaches-IsOrderly r o)

  finished-AllSources :
      (ctx : Context) {js : List Job} {rs : List ExecResult}
      → Results js rs
      → Sources ctx js
      → AllSources ctx (actions_of js) rs
  finished-AllSources ctx Results.none_left s = tt
  finished-AllSources ctx (Results.one_more rest) (s, ss) = (s, finished-AllSources ctx rest ss)

  -- Whatever order the goroutines of a batch run in, when all are at their end there is one result for
  -- each action, at the place of the action: what a call of its tool returned, or the error of the
  -- context, which is done.
  pub Results-AllSources :
      (limit : ℤ) (ctx : Context) (acts : List Action) (b : Batch) (rs : List ExecResult)
      → Reaches Answers (start_batch limit ctx acts) b
      → Results b.jobs rs
      → AllSources b.ctx acts rs
  Results-AllSources limit ctx acts b rs reached ends =
      let o = reaches-IsOrderly reached (start-IsOrderly limit ctx acts) in
      rw⁻¹ o.same (finished-AllSources b.ctx ends o.sources)
