-- ===== src/Executor.antt =====
-- executor/executor.go and executor/parallel.go: the execution of one action, and of many at once.
pub mod Order
pub mod Progress
use simple_agent_framework.Prelude.{
  ℕ, zero, suc, ◌<◌, ◌≡◌, ltb, if◌then◌else◌, List, [], ◌∷◌, Option, none, some, length,
}
use simple_agent_framework.Prelude.Int.{ℤ, pos, negsuc}
use simple_agent_framework.Prelude.Text.{Text}
use simple_agent_framework.Errors.{Error, Context}
use simple_agent_framework.Model.Value.{Input}
use simple_agent_framework.Planner.{Action}

pub record ExecResult : Type 0 where
  pub tool_name : Text
  pub output : Text
  pub error : Option Error

abbrev pub exec_result : Action → Text → Option Error → ExecResult
exec_result a out e = record { tool_name = a.tool_name; output = out; error = e }

-- `ParallelExecutor.Execute`, over `ToolRegistry.Execute`, which may return an output next to an error.
unfoldable pub execute_action :
    {W : Type 0}
    → (Context → Text → Input → W → Text × Option Error × W)
    → Context
    → Action
    → W
    → ExecResult × W
execute_action call ctx a w =
    let (out, e, w') = call ctx a.tool_name a.tool_input w in (exec_result a out e, w')

-- The capacity of the semaphore, for a number of actions.
unfoldable pub limit_of : ℤ → ℕ → ℕ
limit_of (negsuc k) n = n
limit_of (pos zero) n = n
limit_of (pos (suc k)) n = if ltb n (suc k) then n else suc k

-- Where the goroutine of an action is: before its place in the semaphore, in the call of its tool, past
-- the write of its result but before it gives its place back, or at its end.
pub data Task : Type 0 where
  waiting : Task
  running : Task
  holding : ExecResult → Task
  finished : ExecResult → Task

pub record Job : Type 0 where
  pub action : Action
  pub task : Task

-- The variables of `ExecuteBatch`: `sem` counts what is in the channel of that name, of capacity
-- `limit`.
pub record Batch : Type 0 where
  pub limit : ℕ
  pub sem : ℕ
  pub ctx : Context
  pub jobs : List Job

abbrev pub job : Action → Task → Job
job a t = record { action = a; task = t }

abbrev pub all_waiting : List Action → List Job
all_waiting [] = []
all_waiting (a ∷ acts) = job a waiting ∷ all_waiting acts

unfoldable pub start_batch : ℤ → Context → List Action → Batch
start_batch limit ctx acts = record {
  limit = limit_of limit (length acts);
  sem = 0;
  ctx = ctx;
  jobs = all_waiting acts;
}

-- `Answers a out e`: a call of the tool of `a`, next to the calls that run meanwhile, may return that
-- output and that error.
module _ (Answers : Action → Text → Option Error → Type 0) where
  -- One step of one goroutine. A goroutine that waits may take either branch of its `select`, of those
  -- that are ready.
  pub data Moves (limit : ℕ) (ctx : Context) : ℕ → List Job → ℕ → List Job → Type 0 where
    acquire :
        {sem : ℕ} {a : Action} {js : List Job}
        → sem < limit
        → Moves limit ctx sem (job a waiting ∷ js) (suc sem) (job a running ∷ js)
    give_up :
        {sem : ℕ} {a : Action} {js : List Job} {e : Error}
        → ctx ≡ some e
        → Moves limit ctx sem
            (job a waiting ∷ js)
            sem
            (job a (finished (exec_result a [] (some e))) ∷ js)
    answer :
        {sem : ℕ} {a : Action} {js : List Job} {out : Text} {e : Option Error}
        → Answers a out e
        → Moves limit ctx sem (job a running ∷ js) sem (job a (holding (exec_result a out e)) ∷ js)
    release :
        {sem : ℕ} {a : Action} {js : List Job} {r : ExecResult}
        → Moves limit ctx (suc sem) (job a (holding r) ∷ js) sem (job a (finished r) ∷ js)
    later :
        {sem sem' : ℕ} {j : Job} {js js' : List Job}
        → Moves limit ctx sem js sem' js'
        → Moves limit ctx sem (j ∷ js) sem' (j ∷ js')

  -- A step of a batch: of a goroutine, or of the context, which may become done.
  pub data Step : Batch → Batch → Type 0 where
    moves :
        {b : Batch} {sem : ℕ} {js : List Job}
        → Moves b.limit b.ctx b.sem b.jobs sem js
        → Step b (record b { sem = sem; jobs = js })
    cancel : {b : Batch} (e : Error) → b.ctx ≡ none → Step b (record b { ctx = some e })

  pub data Reaches (b : Batch) : Batch → Type 0 where
    start : Reaches b b
    step : {c d : Batch} → Reaches b c → Step c d → Reaches b d

-- `wg.Wait` returns: every goroutine is at its end, and these are the results.
pub data Results : List Job → List ExecResult → Type 0 where
  none_left : Results [] []
  one_more :
      {a : Action} {r : ExecResult} {js : List Job} {rs : List ExecResult}
      → Results js rs
      → Results (job a (finished r) ∷ js) (r ∷ rs)
