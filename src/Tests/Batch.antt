-- ===== src/Tests/Batch.antt =====
-- executor/parallel.go on small inputs.
use simple_agent_framework.Prelude.{
  ◌+◌, ◌*◌, ◌≤◌, ◌≡◌, refl, List, [], ◌∷◌, Option, none, some, length, arith,
}
use simple_agent_framework.Prelude.Int.{pos}
use simple_agent_framework.Prelude.Text.{Text, codes}
use simple_agent_framework.Errors.{Error}
use simple_agent_framework.Planner.{Action, ActionType}
use simple_agent_framework.Executor.{
  ExecResult, exec_result, Task, Batch, Moves, Step, Reaches, Results, start_batch, limit_of, job,
}
use simple_agent_framework.Executor.Order.{AllSources, holders, Results-AllSources}
use simple_agent_framework.Executor.Progress.{steps, Ends, batch-Ends}

abbrev act : Text → Action
act name = record { kind = ActionType.tool_call; tool_name = name; tool_input = none; answer = [] }

-- Each tool returns its own name.
abbrev Echoes : Action → Text → Option Error → Type 0
Echoes a out e = (out ≡ a.tool_name) × (e ≡ none)

abbrev two : List Action
two = act (codes "a") ∷ act (codes "b") ∷ []

abbrev gone : Error
gone = Error.other (codes "context canceled")

-- The first call runs; then the context is done, and the second is never made.
abbrev first : ExecResult
first = exec_result (act (codes "a")) (codes "a") none

abbrev second : ExecResult
second = exec_result (act (codes "b")) [] (some gone)

abbrev ended : Batch
ended = record {
  limit = 1;
  sem = 0;
  ctx = some gone;
  jobs =
      job (act (codes "a")) (Task.finished first)
      ∷ job (act (codes "b")) (Task.finished second)
      ∷ [];
}

run_to_end : Reaches Echoes (start_batch (pos 1) none two) ended
unfolding start_batch limit_of
run_to_end =
    Reaches.step
      (Reaches.step
        (Reaches.step
          (Reaches.step (Reaches.step Reaches.start (Step.moves (Moves.acquire (omega arith))))
            (Step.cancel gone refl))
          (Step.moves (Moves.later (Moves.give_up refl))))
        (Step.moves (Moves.answer (refl, refl))))
      (Step.moves Moves.release)

Results-AllSources_example : AllSources Echoes (some gone) two (first ∷ second ∷ [])
Results-AllSources_example =
    Results-AllSources Echoes (pos 1) none two ended (first ∷ second ∷ []) run_to_end
      (Results.one_more (Results.one_more Results.none_left))

batch-Ends_example :
    (holders ended.jobs ≤ limit_of (pos 1) (length two))
    × (steps Echoes run_to_end ≤ 3 * length two + 1)
    × Ends Echoes (λ a. (a.tool_name, none, (refl, refl))) 1 (some gone) 0 ended.jobs
batch-Ends_example =
    batch-Ends Echoes (λ a. (a.tool_name, none, (refl, refl))) (pos 1) none two ended run_to_end
