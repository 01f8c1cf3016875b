-- ===== src/Tests/Parts.antt =====
-- The memory and the planner on small inputs.
use simple_agent_framework.Tool.Builtin.{fetch_full_result_tool}
use simple_agent_framework.Tool.Builtin.Fetched.{truncate_tool_result-fetch}
use simple_agent_framework.Model.Value.{str, field, end}
use simple_agent_framework.Prelude.{
  ℕ, suc, ◌+◌, ◌<◌, ◌≤◌, ◌≡◌, refl, arith, min, max, map, length, true, List, [], ◌∷◌, ◌++◌, none,
  some, ◌⊎◌,
}
use simple_agent_framework.Prelude.Int.{pos}
use simple_agent_framework.Prelude.Text.{codes}
use simple_agent_framework.Errors.{Error, ok, err}
use simple_agent_framework.Model.{ChatMessage, Role, message}
use simple_agent_framework.Planner.{final_answer, PlanState, PlanStep, StepStatus}
use simple_agent_framework.Planner.PlanAndSolve.{PlanAndSolvePlanner, Held, plan, summarize_results}
use simple_agent_framework.Planner.PlanAndSolve.Parse.{
  Json, parse_action_plan, calls-one_running_at_once,
}
use simple_agent_framework.Planner.PlanAndSolve.Progress.{plan_running, plan_call, done_call, calls}
use simple_agent_framework.Planner.PlanAndSolve.Order.{
  run_steps, run_steps-in_order, expected, holding, settled_step,
}
use simple_agent_framework.Memory.Store.{IsSequence, InMemoryStore, in_memory}
use simple_agent_framework.Memory.Store.Sequence.{in_memory-IsSequence, in_memory-keeps}
use simple_agent_framework.Memory.Buffer.{BufferMemory, add, leading_system}
use simple_agent_framework.Memory.Buffer.Window.{window, add-window}
use simple_agent_framework.Memory.ContentStore.{InMemoryContentStore}
use simple_agent_framework.Memory.ContentStore as Content
use simple_agent_framework.Memory.Compressor.{
  truncate_tool_result, is_live_result, estimate_tokens, clear_result, prune_loop,
  prune_consecutive_failures, compact_stale_tool_results,
}
use simple_agent_framework.Memory.Compressor.Prune.{no_repeat, prune_consecutive_failures-no_repeat}
use simple_agent_framework.Memory.Compressor.Truncate.{truncate_tool_result-length}
use simple_agent_framework.Memory.Compressor.Compact.{
  live_tokens, compact_stale_tool_results-newest,
}

abbrev hello : ChatMessage
hello = message Role.user (codes "hello")

abbrev rules : ChatMessage
rules = message Role.system (codes "rules")

abbrev long_result : ChatMessage
long_result = message Role.tool (codes "a long tool result")

-- A call of a tool, and the failure that answers it.
abbrev failed_call : ChatMessage
failed_call = record (message Role.assistant []) {
  tool_calls = record { id = []; name = codes "search"; arguments = none } ∷ [];
}

abbrev failure : ChatMessage
failure = record (message Role.tool (codes "Error: none")) { name = codes "search" }

abbrev two_kept : BufferMemory InMemoryStore
two_kept = record { store = in_memory; max_size = pos 2 }

abbrev two_stored : InMemoryStore
two_stored = record { messages = rules ∷ hello ∷ [] }

add-window_example :
    ((add two_kept none (hello ∷ []) two_stored).0 ≡ ok tt)
    × ((add two_kept none (hello ∷ []) two_stored).1.messages
        ≡ window 2 (rules ∷ hello ∷ hello ∷ []))
    × (length (add two_kept none (hello ∷ []) two_stored).1.messages
        ≤ max 2 (leading_system (rules ∷ hello ∷ hello ∷ [])))
add-window_example = add-window two_kept in_memory-IsSequence 1 hello [] two_stored refl

in_memory-keeps_example :
    IsSequence in_memory (λ s. s.messages)
    × (in_memory.append (some Error.canceled) (hello ∷ []) two_stored
        ≡ (err Error.canceled, two_stored))
    × (in_memory.list (some Error.canceled) two_stored ≡ (err Error.canceled, two_stored))
    × (in_memory.replace (some Error.canceled) (hello ∷ []) two_stored
        ≡ (err Error.canceled, two_stored))
    × (in_memory.len (some Error.canceled) two_stored ≡ (err Error.canceled, two_stored))
    × (in_memory.trim_head (some Error.canceled) 1 two_stored ≡ (err Error.canceled, two_stored))
    × (in_memory.clear (some Error.canceled) two_stored ≡ (err Error.canceled, two_stored))
in_memory-keeps_example = in_memory-keeps Error.canceled (hello ∷ []) 1 two_stored

compact_stale_tool_results-newest_example :
    (older newer : List ChatMessage) × (long_result ∷ hello ∷ long_result ∷ [] ≡ older ++ newer)
    × (compact_stale_tool_results (long_result ∷ hello ∷ long_result ∷ []) 5
        ≡ map clear_result older ++ newer)
    × (live_tokens newer ≤ 5)
    × ((older ≡ [])
        ⊎ ((before : List ChatMessage) × (m : ChatMessage) × (older ≡ before ++ m ∷ [])
            × (is_live_result m ≡ true)
            × (5 < live_tokens newer + estimate_tokens m.content)))
compact_stale_tool_results-newest_example =
    compact_stale_tool_results-newest (long_result ∷ hello ∷ long_result ∷ []) 5

prune_consecutive_failures-no_repeat_example :
    (no_repeat (prune_consecutive_failures (failed_call ∷ failure ∷ failed_call ∷ failure ∷ []))
      ≡ true)
    × (prune_consecutive_failures (failed_call ∷ failure ∷ failed_call ∷ failure ∷ [])
        ≡ prune_loop 5 (failed_call ∷ failure ∷ failed_call ∷ failure ∷ []))
prune_consecutive_failures-no_repeat_example =
    prune_consecutive_failures-no_repeat (failed_call ∷ failure ∷ failed_call ∷ failure ∷ []) 5
      (omega arith)

abbrev no_contents : InMemoryContentStore
no_contents = record { entries = [] }

truncate_tool_result-length_example :
    length
      (truncate_tool_result
        (codes "0123456789")
        4
        (some (Content.in_memory none))
        (codes "tc_1")
        no_contents).0
    ≡ min 10 4
truncate_tool_result-length_example =
    truncate_tool_result-length (codes "0123456789") 4 (some (Content.in_memory none))
      (codes "tc_1") no_contents

truncate_tool_result-fetch_example :
    let (out, s') =
      truncate_tool_result
        (codes "0123456789")
        4
        (some (Content.in_memory none))
        (codes "tc_1")
        no_contents in
    (out ≡ codes "0123456789")
    ⊎ (((fetch_full_result_tool {S = Unit {0}} none
            (λ t. t)
            (λ ctx. some (Content.in_memory ctx))).execute
          none
          (some (field (codes "id") (str (codes "tc_1")) end))
          s').0
        ≡ ok (codes "0123456789"))
truncate_tool_result-fetch_example =
    truncate_tool_result-fetch none (λ t. t) (codes "0123456789") 4 (codes "tc_1") no_contents

abbrev step : ℕ → PlanStep
step n = record {
  step_id = pos n;
  description = codes "ask";
  action = record { kind = final_answer; tool_name = []; tool_input = none; answer = codes "done" };
  status = StepStatus.pending;
  result = [];
}

abbrev no_json : Json
no_json = record {
  quote = λ t. t;
  plan_file = λ t. ok (
      record {
        step_id = pos 0;
        description = t;
        kind = codes "answer";
        tool_name = [];
        tool_input = [];
        answer = t;
        nested_action = [];
      }
      ∷ []);
  nested = λ t. none;
  object = λ t. none;
  string = λ t. none;
}

abbrev steady : PlanAndSolvePlanner ℕ
steady = record {
  model = some (λ ms w. (ok (some (message Role.assistant (codes "{a}"))), suc w));
  plan_prompt = [];
  solve_prompt = [];
  parse = parse_action_plan no_json;
  tool_line = λ t. [];
  history_line = λ s. [];
}

abbrev nothing_yet : PlanState
nothing_yet = record { messages = []; tools = []; history = [] }

abbrev unplanned : Held ℕ
unplanned = record { plan = none; world = 0 }

run_steps-in_order_example :
    ((run_steps steady
        (λ s. codes "ok")
        2
        nothing_yet
        (holding steady (λ s. codes "ok") unplanned (step 1 ∷ step 2 ∷ []) 0)).0
      ≡ map (expected steady (λ s. codes "ok")) (step 1 ∷ step 2 ∷ []))
    × ((c : ℕ) × ((plan steady nothing_yet
            (run_steps steady
              (λ s. codes "ok")
              2
              nothing_yet
              (holding steady (λ s. codes "ok") unplanned (step 1 ∷ step 2 ∷ []) 0)).1).0
          ≡ ok (record {
            action = record {
              kind = final_answer;
              tool_name = [];
              tool_input = none;
              answer = summarize_results (
                  some (record {
                    steps = map (settled_step steady (λ s. codes "ok")) (step 1 ∷ step 2 ∷ []);
                    current_step = c;
                  }));
            };
            reasoning = [];
          })))
run_steps-in_order_example =
    run_steps-in_order steady (λ s. codes "ok")
      (λ ms w. (ok (some (message Role.assistant (codes "{a}"))), suc w)) (step 1 ∷ step 2 ∷ [])
      unplanned nothing_yet refl refl refl

calls-one_running_at_once_example :
    plan_running
      (calls steady
        (plan_call nothing_yet ∷ done_call (pos 7) [] ∷ plan_call nothing_yet ∷ [])
        unplanned).plan
    ≤ 1
calls-one_running_at_once_example =
    calls-one_running_at_once no_json steady
      (plan_call nothing_yet ∷ done_call (pos 7) [] ∷ plan_call nothing_yet ∷ []) 0 refl
