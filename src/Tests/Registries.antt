-- ===== src/Tests/Registries.antt =====
-- The registries, the rate limiter and the summary memory on small inputs.
use simple_agent_framework.Prelude.{
  ℕ, suc, ◌≤◌, ◌≡◌, refl, map, true, false, List, [], ◌∷◌, Option, none, some, arith,
}
use simple_agent_framework.Prelude.Int.{pos}
use simple_agent_framework.Prelude.Text.{Text, codes}
use simple_agent_framework.Errors.{ok}
use simple_agent_framework.Model.{ChatMessage, Role, message}
use simple_agent_framework.Model.SlidingWindow.{
  SlidingWindow, new_sliding_window, allow, cleanup, expire, add_request,
}
use simple_agent_framework.Model.SlidingWindow.Queue.{
  IsValid, view, queue_allow, allow_refines, new-IsValid,
}
use simple_agent_framework.Model.SlidingWindow.Rate.{grants, grants-paced}
use simple_agent_framework.Model.SlidingWindow.Passed.{recent_count}
use simple_agent_framework.Memory.Store.{InMemoryStore, in_memory}
use simple_agent_framework.Memory.Store.Sequence.{in_memory-IsSequence}
use simple_agent_framework.Memory.Summary as Summary
use simple_agent_framework.Memory.Summary.{SummaryMemory, Held}
use simple_agent_framework.Memory.Summary.Condense.{summed, asked, Ends, add-summed}
use simple_agent_framework.Registry as Registry
use simple_agent_framework.Registry.Dictionary as Dictionary
use simple_agent_framework.Registry.Dictionary.{insert_all, erase, find}
use simple_agent_framework.Registry.Refine.{add-refines}
use simple_agent_framework.Registry.Acts.{registry-refines}
use simple_agent_framework.Rule.{FileRule, RuleRegistry, rule_name, new_file_rule, new_rules}
use simple_agent_framework.Tool.{
  Tool, tool_name, func_tool, new_tool_registry, tools, execute, call_found,
}
use simple_agent_framework.Tool.Latest.{add_tools, latest, execute-latest, tools-refines}

-- One request in ten nanoseconds.
abbrev limiter : SlidingWindow
limiter = new_sliding_window 10 1

allow_refines_example :
    IsValid (allow 3 4 limiter).1
    × (((allow 3 4 limiter).0, view (allow 3 4 limiter).1)
        ≡ queue_allow limiter.window_size limiter.max_reqs 3 4 (view limiter))
allow_refines_example = allow_refines 3 4 limiter (new-IsValid 10 1 (omega arith))

two_calls : (grants ((3, 4) ∷ (8, 9) ∷ (14, 15) ∷ []) limiter).0 ≡ 4 ∷ 15 ∷ []
unfolding grants allow cleanup expire new_sliding_window add_request
two_calls = refl

grants-paced_example :
    (recent_count 10 16 (grants ((3, 4) ∷ (8, 9) ∷ (14, 15) ∷ []) (new_sliding_window 10 1)).0 ≤ 1)
    × ((allow 26 27 (grants ((3, 4) ∷ (8, 9) ∷ (14, 15) ∷ []) (new_sliding_window 10 1)).1).0
        ≡ true)
grants-paced_example =
    grants-paced 10 1 ((3, 4) ∷ (8, 9) ∷ (14, 15) ∷ []) 16 26 27 (omega arith)
      (
        omega arith,
        omega arith,
        (omega arith, omega arith, (omega arith, omega arith, omega arith)),
      )
      (omega arith)

abbrev hello : ChatMessage
hello = message Role.user (codes "hello")

-- A model that counts its calls, and a memory of at most two messages.
abbrev two_at_most : SummaryMemory InMemoryStore ℕ
two_at_most = record {
  store = in_memory;
  model = λ ms w. (ok (message Role.assistant (codes "they greet")), suc w);
  threshold = pos 2;
  on_summary = none;
}

abbrev greeted : Held InMemoryStore ℕ
greeted = record { stored = record { messages = hello ∷ hello ∷ [] }; summary = []; world = 0 }

add-summed_example :
    Ends
      (λ s. s.messages)
      (Summary.add 2 two_at_most none (hello ∷ []) greeted)
      (summed 2 (asked two_at_most 0) [] (hello ∷ hello ∷ hello ∷ []))
add-summed_example = add-summed two_at_most in_memory-IsSequence 0 1 hello [] greeted refl

abbrev condensed : Held InMemoryStore ℕ
condensed = record {
  stored = record { messages = hello ∷ [] };
  summary = codes "they greet";
  world = 1;
}

add_condenses : Summary.add 2 two_at_most none (hello ∷ []) greeted ≡ some (ok tt, condensed)
unfolding Summary.add in_memory Summary.add_rounds Summary.add_round Summary.summarize
    Summary.condense
add_condenses = refl

abbrev tone : Text → FileRule
tone content = new_file_rule (codes "tone") [] content true

abbrev style : FileRule
style = new_file_rule (codes "style") [] (codes "be brief") false

-- The second rule named tone takes the place of the first.
abbrev some_rules : List (Option FileRule)
some_rules =
    some (tone (codes "be kind")) ∷ none ∷ some style ∷ some (tone (codes "be formal")) ∷ []

new_rules-IsValid : Dictionary.IsValid rule_name new_rules
unfolding new_rules
new_rules-IsValid = Dictionary.new-IsValid rule_name

abbrev filled : RuleRegistry
filled = Registry.add rule_name some_rules new_rules

filled-IsValid : Dictionary.IsValid rule_name filled
filled-IsValid = (add-refines rule_name some_rules new_rules new_rules-IsValid).0

registry-refines_example :
    (Dictionary.IsValid rule_name (Registry.add rule_name (some style ∷ []) filled)
      × (Registry.list (Registry.add rule_name (some style ∷ []) filled)
          ≡ insert_all rule_name (some style ∷ []) (Registry.list filled)))
    × (Dictionary.IsValid rule_name (Registry.remove (codes "tone") filled)
        × (Registry.list (Registry.remove (codes "tone") filled)
            ≡ erase rule_name (codes "tone") (Registry.list filled)))
    × (Registry.get (codes "tone") filled ≡ find rule_name (codes "tone") (Registry.list filled))
registry-refines_example =
    registry-refines rule_name (some style ∷ []) (codes "tone") filled filled-IsValid

abbrev echo : Text → Tool ℕ ℕ
echo answer = func_tool (codes "echo") [] none (λ input w. (ok answer, suc w))

execute-latest_example :
    execute
      (λ t. t)
      (add_tools (echo (codes "a") ∷ echo (codes "b") ∷ []) new_tool_registry)
      none
      (codes "echo")
      none
    ≡ call_found
        (λ t. t)
        (codes "echo")
        none
        none
        (latest (codes "echo") (echo (codes "a") ∷ echo (codes "b") ∷ []))
execute-latest_example =
    execute-latest (λ t. t) (echo (codes "a") ∷ echo (codes "b") ∷ []) none (codes "echo") none

tools-refines_example :
    tools (add_tools (echo (codes "a") ∷ echo (codes "b") ∷ []) new_tool_registry)
    ≡ map some (insert_all tool_name (map some (echo (codes "a") ∷ echo (codes "b") ∷ [])) [])
tools-refines_example = tools-refines (echo (codes "a") ∷ echo (codes "b") ∷ [])
