-- ===== src/Executor/Progress.antt =====
-- executor/parallel.go: a batch stays within its limit, and comes to its end.
use simple_agent_framework.Prelude.{
  ℕ, zero, suc, ◌+◌, ◌*◌, ◌≤◌, ◌<◌, ◌≡◌, refl, sym, ◌⊎◌, inl, inr, List, [], ◌∷◌, Option, none,
  some, length, arith,
}
use simple_agent_framework.Prelude.Int.{ℤ, pos, negsuc}
use simple_agent_framework.Prelude.Text.{Text}
use simple_agent_framework.Errors.{Error, Context}
use simple_agent_framework.Planner.{Action}
use simple_agent_framework.Executor.{
  ExecResult, Task, Job, Batch, limit_of, all_waiting, start_batch, Moves, Step, Reaches, Results,
  job,
}
use simple_agent_framework.Executor.Order.{
  holders, actions_of, IsOrderly, start-IsOrderly, reaches-IsOrderly,
}

-- The steps that a goroutine has left, at most.
abbrev left : Task → ℕ
left Task.waiting = 3
left Task.running = 2
left (Task.holding r) = 1
left (Task.finished r) = 0

abbrev all_left : List Job → ℕ
all_left [] = 0
all_left (j ∷ js) = left j.task + all_left js

abbrev ctx_left : Context → ℕ
ctx_left none = 1
ctx_left (some e) = 0

abbrev rank : Batch → ℕ
rank b = all_left b.jobs + ctx_left b.ctx

all_left-all_waiting : (acts : List Action) → all_left (all_waiting acts) ≡ 3 * length acts
all_left-all_waiting [] = refl
all_left-all_waiting (a ∷ acts) = omega (arith, all_left-all_waiting acts)

limit_of-positive : (limit : ℤ) (n : ℕ) → 0 < n → 0 < limit_of limit n
unfolding limit_of
limit_of-positive (negsuc k) n h = h
limit_of-positive (pos zero) n h = h
limit_of-positive (pos (suc k)) n h = ground arith

Results-holders : {js : List Job} {rs : List ExecResult} → Results js rs → holders js ≡ 0
Results-holders Results.none_left = refl
Results-holders (Results.one_more rest) = omega (arith, Results-holders rest)

module _ (Answers : Action → Text → Option Error → Type 0) where
  Moves-falls :
      {limit : ℕ} {ctx : Context} {sem sem' : ℕ} {js js' : List Job}
      → Moves Answers limit ctx sem js sem' js'
      → suc (all_left js') ≤ all_left js
  Moves-falls (Moves.acquire room) = omega arith
  Moves-falls (Moves.give_up done) = omega arith
  Moves-falls (Moves.answer ans) = omega arith
  Moves-falls Moves.release = omega arith
  Moves-falls (Moves.later m) = omega (arith, Moves-falls m)

  Step-falls : {b c : Batch} → Step Answers b c → suc (rank c) ≤ rank b
  Step-falls (Step.moves m) = omega (arith, Moves-falls m)
  Step-falls (Step.cancel e live) = rw live (omega arith)

  -- How many steps were taken.
  abbrev pub steps : {b c : Batch} → Reaches Answers b c → ℕ
  steps Reaches.start = 0
  steps (Reaches.step r s) = suc (steps r)

  steps-rank : {b c : Batch} (r : Reaches Answers b c) → steps r + rank c ≤ rank b
  steps-rank Reaches.start = omega arith
  steps-rank (Reaches.step r s) = omega (arith, steps-rank r, Step-falls s)

  Step-limit : {b c : Batch} → Step Answers b c → c.limit ≡ b.limit
  Step-limit (Step.moves m) = refl
  Step-limit (Step.cancel e live) = refl

  reaches-limit : {b c : Batch} → Reaches Answers b c → c.limit ≡ b.limit
  reaches-limit Reaches.start = refl
  reaches-limit (Reaches.step r s) = omega (arith, Step-limit s, reaches-limit r)

  module _ (answers : (a : Action) → (out : Text) × (e : Option Error) × Answers a out e) where
    -- A goroutine that can take a step.
    abbrev pub Steps : ℕ → Context → ℕ → List Job → Type 0
    Steps limit ctx sem js = (sem' : ℕ) × (js' : List Job) × Moves Answers limit ctx sem js sem' js'

    abbrev pub Ends : ℕ → Context → ℕ → List Job → Type 0
    Ends limit ctx sem js = ((rs : List ExecResult) × Results js rs) ⊎ Steps limit ctx sem js

    released :
        (limit : ℕ) (ctx : Context) (sem : ℕ) (a : Action) (r : ExecResult) (js : List Job)
        → 0 < sem
        → Steps limit ctx sem (job a (Task.holding r) ∷ js)
    released limit ctx zero a r js h = absurd (omega arith)
    released limit ctx (suc sem) a r js h = (sem, job a (Task.finished r) ∷ js, Moves.release)

    later :
        (limit : ℕ) (ctx : Context) (sem : ℕ) (j : Job) (js : List Job)
        → Steps limit ctx sem js
        → Steps limit ctx sem (j ∷ js)
    later limit ctx sem j js (sem', js', m) = (sem', j ∷ js', Moves.later m)

    -- With room in the semaphore every goroutine that is not at its end can take a step; without, one
    -- that has a place can.
    goes_on :
        (limit : ℕ) (ctx : Context) (sem : ℕ) (js : List Job)
        → holders js ≤ sem
        → (sem < limit) ⊎ (0 < holders js)
        → Ends limit ctx sem js
    goes_on limit ctx sem [] few h = inl ([], Results.none_left)
    goes_on limit ctx sem (j ∷ js) few h = by_task j.action j.task few h (goes_on limit ctx sem js)
      where
        by_rest :
            (a : Action) (r : ExecResult)
            → Ends limit ctx sem js
            → Ends limit ctx sem (job a (Task.finished r) ∷ js)
        by_rest a r (inl (rs, ends)) = inl (r ∷ rs, Results.one_more ends)
        by_rest a r (inr next) = inr (later limit ctx sem _ js next)

        past_waiting :
            (a : Action)
            → 0 < holders js
            → Ends limit ctx sem js
            → Ends limit ctx sem (job a Task.waiting ∷ js)
        past_waiting a busy (inl (rs, ends)) = absurd (omega (arith, Results-holders ends))
        past_waiting a busy (inr next) = inr (later limit ctx sem _ js next)

        by_task :
            (a : Action) (t : Task)
            → holders (job a t ∷ js) ≤ sem
            → (sem < limit) ⊎ (0 < holders (job a t ∷ js))
            → (holders js ≤ sem → (sem < limit) ⊎ (0 < holders js) → Ends limit ctx sem js)
            → Ends limit ctx sem (job a t ∷ js)
        by_task a Task.waiting few' (inl room) ih = inr (suc sem, _, Moves.acquire room)
        by_task a Task.waiting few' (inr busy) ih =
            past_waiting a (omega arith) (ih (omega arith) (inr (omega arith)))
        by_task a Task.running few' h' ih =
            let (out, e, ans) = answers a in inr (sem, _, Moves.answer ans)
        by_task a (Task.holding r) few' h' ih = inr (released limit ctx sem a r js (omega arith))
        by_task a (Task.finished r) few' (inl room) ih = by_rest a r (ih (omega arith) (inl room))
        by_task a (Task.finished r) few' (inr busy) ih =
            by_rest a r (ih (omega arith) (inr (omega arith)))

    -- A place that is free or taken.
    some_place : (limit sem n : ℕ) → n ≡ sem → 0 < limit → (sem < limit) ⊎ (0 < n)
    some_place limit zero n same positive = inl positive
    some_place limit (suc sem) n same positive = inr (omega arith)

    nothing_to_do :
        (limit : ℕ) (ctx : Context) (sem : ℕ) (js : List Job)
        → actions_of js ≡ []
        → Ends limit ctx sem js
    nothing_to_do limit ctx sem [] h = inl ([], Results.none_left)
    nothing_to_do limit ctx sem (j ∷ js) h = absurd (cc h)

    orderly-Ends :
        (limit : ℤ) (acts : List Action) (b : Batch)
        → IsOrderly Answers acts b
        → b.limit ≡ limit_of limit (length acts)
        → Ends b.limit b.ctx b.sem b.jobs
    orderly-Ends limit [] b o same = nothing_to_do b.limit b.ctx b.sem b.jobs o.same
    orderly-Ends limit (a ∷ acts) b o same =
        goes_on b.limit b.ctx b.sem b.jobs (omega (arith, o.counted)) (
          some_place b.limit b.sem (holders b.jobs) (sym o.counted)
            (omega (arith, same, limit_of-positive limit (suc (length acts)) (omega arith))))

    start-rank :
        (limit : ℤ) (ctx : Context) (acts : List Action)
        → rank (start_batch limit ctx acts) ≤ 3 * length acts + 1
    unfolding start_batch
    start-rank limit none acts = omega (arith, all_left-all_waiting acts)
    start-rank limit (some e) acts = omega (arith, all_left-all_waiting acts)

    -- A batch whose tools all return, whatever order its goroutines run in: no more calls than the
    -- limit run at any time, no more than `3 * n + 1` steps are taken of `n` actions, and as long as
    -- some goroutine is not at its end one can take a step.
    pub batch-Ends :
        (limit : ℤ) (ctx : Context) (acts : List Action) (b : Batch)
        → (r : Reaches Answers (start_batch limit ctx acts) b)
        → (holders b.jobs ≤ limit_of limit (length acts))
          × (steps r ≤ 3 * length acts + 1)
          × Ends b.limit b.ctx b.sem b.jobs
    unfolding start_batch
    batch-Ends limit ctx acts b r =
        let o = reaches-IsOrderly Answers r (start-IsOrderly Answers limit ctx acts) in
        (
          omega (arith, o.counted, o.bounded, reaches-limit r),
          omega (arith, steps-rank r, start-rank limit ctx acts),
          orderly-Ends limit acts b o (reaches-limit r),
        )
