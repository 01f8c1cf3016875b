-- ===== src/Tests/Clients.antt =====
-- The clients, the streams and a skill's conversation on small inputs.
use simple_agent_framework.Prelude.{
  ℕ, zero, suc, ◌≡◌, refl, true, List, [], ◌∷◌, Option, none, ◌↔◌, take,
}
use simple_agent_framework.Prelude.Int.{pos}
use simple_agent_framework.Prelude.Text.{Text, codes}
use simple_agent_framework.Errors.{Error, Exec, ok}
use simple_agent_framework.Model.{ChatMessage, ChatResponse, ToolCall, Role, message}
use simple_agent_framework.Model.Options.{ToolDef}
use simple_agent_framework.Model.Stream.{StreamChunk, text_chunk}
use simple_agent_framework.Model.Stream.Reading.{Reads, finished, finished-Reads}
use simple_agent_framework.Provider.Anthropic.{to_anthropic}
use simple_agent_framework.Provider.Anthropic.Sending.{Sends, to_anthropic-Sends}
use simple_agent_framework.Skill.{DirSkill, new_dir_skill, with_max_iterations}
use simple_agent_framework.Skill.Context.{AnyTool, by_name, new_context, run}
use simple_agent_framework.Skill.Context.Dialogue.{Dialogue, run-Dialogue}

abbrev a_call : ToolCall
a_call = record { id = codes "1"; name = codes "ls"; arguments = none }

abbrev calling : ChatMessage
calling = record {
  role = Role.assistant;
  content = [];
  tool_calls = a_call ∷ [];
  tool_call_id = [];
  name = [];
}

abbrev result : Text → ChatMessage
result t = record {
  role = Role.tool;
  content = t;
  tool_calls = [];
  tool_call_id = codes "1";
  name = codes "ls";
}

abbrev talk : List ChatMessage
talk =
    message Role.system (codes "Act.")
    ∷ message Role.user (codes "hi")
    ∷ calling
    ∷ result (codes "a")
    ∷ result (codes "b")
    ∷ []

to_anthropic-Sends_example : Sends (λ t. t) talk (to_anthropic (λ t. t) talk)
to_anthropic-Sends_example = to_anthropic-Sends (λ t. t) talk

abbrev last_chunk : StreamChunk
last_chunk = record { delta = []; tool_calls = a_call ∷ []; done = true; usage = none }

-- The chunk with the call may be lost.
finished-Reads_example :
    Reads (finished (text_chunk (codes "so") ∷ last_chunk ∷ [])) (text_chunk (codes "so") ∷ []) none
    ↔ ((k : ℕ) × (text_chunk (codes "so") ∷ [] ≡ take k (text_chunk (codes "so") ∷ last_chunk ∷ []))
        × ◌≡◌ {A = Option Error} none none)
finished-Reads_example =
    finished-Reads (text_chunk (codes "so") ∷ last_chunk ∷ []) (text_chunk (codes "so") ∷ []) none

-- A model that calls a tool that is not there, and then answers.
abbrev asks_once : List ChatMessage → List ToolDef → Exec ℕ ChatResponse
asks_once ms ts n = elim n [
  | zero ↦ (
    ok (record {
      message = calling;
      usage = record { prompt_tokens = 2; completion_tokens = 1; total_tokens = 0 };
    }),
    1,
  )
  | suc k ↦ (
    ok (record {
      message = message Role.assistant (codes "none");
      usage = record { prompt_tokens = 4; completion_tokens = 1; total_tokens = 5 };
    }),
    suc (suc k),
  )
]

abbrev lister : DirSkill (AnyTool ℕ)
lister = new_dir_skill (codes "lister") [] [] [] (with_max_iterations (pos 3) ∷ [])

run-Dialogue_example :
    let (answer, log, w') =
      run asks_once none (new_context lister (codes "go") (codes "List.")) 0 in
    (added : List ChatMessage) × Dialogue asks_once none [] 3
      (message Role.system (codes "List.") ∷ message Role.user (codes "go") ∷ [])
      0
      added
      answer
      log.steps
      log.tokens_used
      w'
    × (log.messages ≡ message Role.system (codes "List.") ∷ message Role.user (codes "go") ∷ added)
    × (log.input ≡ codes "go")
    × (log.result ≡ answer)
unfolding new_dir_skill with_max_iterations
run-Dialogue_example = run-Dialogue asks_once none lister (codes "go") (codes "List.") 0

two_rounds :
    (run asks_once none (new_context lister (codes "go") (codes "List.")) 0).1.tokens_used ≡ 8
unfolding run new_context new_dir_skill with_max_iterations by_name
two_rounds = refl
