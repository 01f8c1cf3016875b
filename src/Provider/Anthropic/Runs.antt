-- ===== src/Provider/Anthropic/Runs.antt =====
-- model/provider/anthropic/anthropic.go: the run of tool messages that a conversation begins with.
use simple_agent_framework.Prelude.{
  suc, ◌≤◌, ◌≡◌, refl, ap, true, false, if◌then◌else◌, List, [], ◌∷◌, ◌++◌, length, Bool-cases, inl,
  inr, arith,
}
use simple_agent_framework.Prelude.Text.{is_empty, codes}
use simple_agent_framework.Errors.{Error, ok, err}
use simple_agent_framework.Model.{ChatMessage, Role, is_tool}
use simple_agent_framework.Provider.Anthropic.{Block, tool_result, tool_run}
use simple_agent_framework.Provider.Anthropic.Conversation.{
  Entry, all_sendable, entries, results, turns, starts_with_tool,
}

-- What `tool_run` makes of messages that can be sent.
pub record Ran (ms : List ChatMessage) (bs : List Block) (rest : List ChatMessage) : Type 0 where
  pub runs : tool_run ms ≡ ok (bs, rest)
  pub same : results bs ++ entries rest ≡ entries ms
  pub sendable : all_sendable rest ≡ true
  pub shorter : (if starts_with_tool ms then suc (length rest) else length rest) ≤ length ms
  pub counted : turns ms ≡ (if starts_with_tool ms then suc (turns rest) else turns rest)

run_stops :
    (m : ChatMessage) (ms : List ChatMessage)
    → is_tool m.role ≡ false
    → all_sendable (m ∷ ms) ≡ true
    → Ran (m ∷ ms) [] (m ∷ ms)
unfolding tool_run
run_stops m ms other h = record {
  runs = rw (tool_run, other);
  same = refl;
  sendable = h;
  shorter = rw other (omega arith);
  counted = rw other;
}

run_goes_on :
    (m : ChatMessage) (ms rest : List ChatMessage) (bs : List Block)
    → m.role ≡ Role.tool
    → is_empty m.tool_call_id ≡ false
    → Ran ms bs rest
    → Ran (m ∷ ms) (tool_result m.tool_call_id m.content ∷ bs) rest
unfolding tool_run
run_goes_on m ms rest bs role given r = record {
  runs = ground (arith, r.runs);
  same = rw role (ap (◌∷◌ (Entry.resulted m.tool_call_id m.content)) r.same);
  sendable = r.sendable;
  shorter = rw role (ground (arith, r.shorter));
  counted = ground (arith, r.counted);
}

pub tool_run-Ran :
    (ms : List ChatMessage)
    → all_sendable ms ≡ true
    → (bs : List Block) × (rest : List ChatMessage) × Ran ms bs rest
unfolding tool_run
tool_run-Ran [] h = (
  [],
  [],
  record { runs = refl; same = refl; sendable = refl; shorter = omega arith; counted = refl },
)
tool_run-Ran (m ∷ ms) h = by_role m.role refl (tool_run-Ran ms)
  where
    by_role :
        (r : Role)
        → m.role ≡ r
        → (all_sendable ms ≡ true → (bs : List Block) × (rest : List ChatMessage) × Ran ms bs rest)
        → (bs : List Block) × (rest : List ChatMessage) × Ran (m ∷ ms) bs rest
    by_role Role.tool e ih =
        let (bs, rest, ran) = ih (ground arith) in
        (
          tool_result m.tool_call_id m.content ∷ bs,
          rest,
          run_goes_on m ms rest bs e (ground arith) ran,
        )
    by_role Role.system e ih = ([], m ∷ ms, run_stops m ms (rw e) h)
    by_role Role.user e ih = ([], m ∷ ms, run_stops m ms (rw e) h)
    by_role Role.assistant e ih = ([], m ∷ ms, run_stops m ms (rw e) h)
    by_role (Role.named t) e ih = ([], m ∷ ms, run_stops m ms (rw e) h)

-- Messages of which one cannot be sent, with what of them comes after a run of tool messages.
pub data Refused : List ChatMessage → Type 0 where
  at_once : {ms : List ChatMessage} (e : Error) → tool_run ms ≡ err e → Refused ms
  later :
      {ms : List ChatMessage} (bs : List Block) (rest : List ChatMessage)
      → tool_run ms ≡ ok (bs, rest)
      → all_sendable rest ≡ false
      → (if starts_with_tool ms then suc (length rest) else length rest) ≤ length ms
      → Refused ms

pub tool_run-Refused : (ms : List ChatMessage) → all_sendable ms ≡ false → Refused ms
unfolding tool_run
tool_run-Refused [] h = ground (arith, h)
tool_run-Refused (m ∷ ms) h = by_role m.role refl (tool_run-Refused ms)
  where
    stops : is_tool m.role ≡ false → Refused (m ∷ ms)
    stops other = later [] (m ∷ ms) (rw (tool_run, other)) h (rw other (omega arith))

    goes_on : m.role ≡ Role.tool → is_empty m.tool_call_id ≡ false → Refused ms → Refused (m ∷ ms)
    goes_on e given (at_once x failed) = at_once x (ground arith)
    goes_on e given (later bs rest runs bad shorter) =
        later (tool_result m.tool_call_id m.content ∷ bs) rest (ground arith) bad
          (rw e (ground arith))

    by_role : (r : Role) → m.role ≡ r → (all_sendable ms ≡ false → Refused ms) → Refused (m ∷ ms)
    by_role Role.system e ih = stops (rw e)
    by_role Role.user e ih = stops (rw e)
    by_role Role.assistant e ih = stops (rw e)
    by_role (Role.named t) e ih = stops (rw e)
    by_role Role.tool e ih = elim (Bool-cases (is_empty m.tool_call_id)) [
      | inl missing ↦
          at_once (Error.other (codes "anthropic: tool message missing tool_call_id"))
            (ground arith)
      | inr given ↦ goes_on e given (ih (ground arith))
    ]
