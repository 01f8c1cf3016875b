-- ===== src/Tests/Sessions.antt =====
-- agent/session.go and planner/react.go on small inputs.
use simple_agent_framework.Prelude.{
  ℕ, suc, false, ◌≡◌, refl, if◌then◌else◌, List, [], ◌∷◌, Option, none, some,
}
use simple_agent_framework.Prelude.Int.{pos}
use simple_agent_framework.Prelude.Text.{Text, codes, is_empty, text_eq}
use simple_agent_framework.Errors.{Error, Exec, ok}
use simple_agent_framework.Model.{ChatMessage, ChatResponse, Role, message}
use simple_agent_framework.Model.Options.{ToolDef}
use simple_agent_framework.Model.Stream.{StreamChunk}
use simple_agent_framework.Planner.{PlanState, ToolInfo}
use simple_agent_framework.Planner.React.{plan_react}
use simple_agent_framework.Interrupter.Checkpoint.{Codec, MemoryStore}
use simple_agent_framework.Agent.Loop.State.{LoopState}
use simple_agent_framework.Agent.Loop.Stream.{stream_react_plan}
use simple_agent_framework.Agent.Loop.Stream.Spelled.{stream_react_plan-plan}
use simple_agent_framework.Agent.Session.{
  Session, Makings, Sessions, RunSnapshot, open_session, lookup_session, new_session,
  with_checkpoint, with_run_id,
}
use simple_agent_framework.Agent.Session.Resume.{in_memory_checkpoints}
use simple_agent_framework.Agent.Session.Suspended.{suspend, resume, resume-suspend}
use simple_agent_framework.Agent.Session.Table.{Keeps, open_session-Keeps}
use simple_agent_framework.Tests.Loop.{unattended}

abbrev hello : ChatMessage
hello = message Role.user (codes "hello")

abbrev greeting : PlanState
greeting = record { messages = hello ∷ []; tools = []; history = [] }

abbrev chunk : Text → StreamChunk
chunk t = record { delta = t; tool_calls = []; usage = none; done = false }

abbrev two_chunks : List StreamChunk
two_chunks = chunk (codes "good ") ∷ chunk (codes "day") ∷ []

abbrev good_day : ChatResponse
good_day = record {
  message = message Role.assistant (codes "good day");
  usage = record { prompt_tokens = 0; completion_tokens = 0; total_tokens = 0 };
}

abbrev streams : List ChatMessage → List ToolInfo → Exec ℕ (List StreamChunk × Option Error)
streams ms ts w = (ok (two_chunks, none), suc w)

abbrev generates : List ChatMessage → List ToolDef → Exec ℕ (Option ChatResponse)
generates ms ts w = (ok (some good_day), suc w)

stream_react_plan-plan_example :
    (stream_react_plan unattended streams greeting 0).0
    ≡ (plan_react unattended.parse_json
        (record { model = some generates; system_prompt = [] })
        greeting
        0).0
stream_react_plan-plan_example =
    stream_react_plan-plan unattended streams greeting hello [] 0 1 0 1 two_chunks none generates []
      good_day refl refl refl refl refl

abbrev snapped : Text → RunSnapshot
snapped run = record {
  run_id = run;
  snapshot = record { plan = none; step_results = []; iteration = 2; state = LoopState.planning };
}

-- Only the run is written.
abbrev only_run : Codec RunSnapshot
only_run = record {
  serialize = λ s. ok s.run_id;
  deserialize = λ t. ok (snapped t);
  quote = λ t. t;
}

abbrev makings : Makings ℕ ℕ ℕ
makings = record {
  memory_factory = λ id. 0;
  content_store_factory = λ id. 0;
  compressor = 0;
  loop_detection_threshold = pos 3;
}

abbrev checked : Session ℕ ℕ ℕ MemoryStore
checked = new_session makings (codes "s") []

abbrev saves : Session ℕ ℕ ℕ MemoryStore
saves = with_checkpoint (some (in_memory_checkpoints only_run)) (codes "run-1") checked

resume-suspend_example :
    let (r, kept, w') =
      suspend
        ((codes "s", saves) ∷ [])
        none
        (codes "s")
        (some (snapped []))
        (record { data_of = [] }) in
    (r ≡ ok tt)
    × (kept ≡ some (with_run_id (codes "run-1") (snapped [])))
    × ((resume
          ((codes "s", saves) ∷ [])
          none
          (codes "s")
          (if is_empty [] then codes "run-1" else [])
          w').0
        ≡ ok (some (with_run_id (codes "run-1") (snapped []))))
unfolding with_run_id lookup_session text_eq
resume-suspend_example =
    resume-suspend only_run ((codes "s", saves) ∷ []) (codes "s") (codes "run-1") (codes "run-1")
      checked (snapped []) (record { data_of = [] }) refl refl refl

abbrev nobody : Sessions ℕ ℕ ℕ MemoryStore → Sessions ℕ ℕ ℕ MemoryStore
nobody m = m

open_session-Keeps_example :
    (lookup_session (codes "s") (open_session makings nobody (codes "s") [] []).1
      ≡ some (open_session makings nobody (codes "s") [] []).0)
    × Keeps [] (open_session makings nobody (codes "s") [] []).1
open_session-Keeps_example =
    open_session-Keeps makings nobody (codes "s") [] [] (λ id s found. found)
