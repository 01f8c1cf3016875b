-- ===== src/Memory/Summary.antt =====
-- memory/summary.go: the older half of a long history is replaced by a summary of it.
pub mod Condense
use simple_agent_framework.Prelude.{
  ℕ, suc, zero, ◌+◌, ◌-◌, ◌/◌, max, leb, if◌then◌else◌, Bool, true, false, List, [], ◌∷◌, ◌++◌,
  Option, none, some, length, take, drop,
}
use simple_agent_framework.Prelude.Int.{ℤ, is_positive, pos_part}
use simple_agent_framework.Prelude.Text.{Text, codes, is_empty}
use simple_agent_framework.Errors.{Exec, Context, Result, ok, err, pure, ◌>>=◌, ◌>>◌}
use simple_agent_framework.Model.{ChatMessage, Role, role_text, message}
use simple_agent_framework.Memory.Store.{MessageStore}

-- The fields of `SummaryMemory` that never change. `model.Generate` returns a response where it
-- returns no error; the callback sees the world.
pub record SummaryMemory (S W : Type 0) : Type 0 where
  pub store : MessageStore S
  pub model : List ChatMessage → Exec W ChatMessage
  pub threshold : ℤ
  pub on_summary : Option (ℕ → ℕ → Text → W → W)

-- The store, the field `summary`, and the world that the model changes.
pub record Held (S W : Type 0) : Type 0 where
  pub stored : S
  pub summary : Text
  pub world : W

-- `keepN`
abbrev pub keep_n : ℕ → ℕ
keep_n threshold = max (threshold / 2) 1

-- What `body` prints.
unfoldable pub head_lines : List ChatMessage → Text
unfolding role_text
head_lines [] = []
head_lines (m ∷ ms) =
    codes "[" ++ (role_text m.role ++ (codes "]: " ++ (m.content ++ (codes "\n" ++ head_lines ms))))

abbrev existing_lines : Text → Text
existing_lines summary =
    if is_empty summary then [] else codes "Existing summary:\n" ++ (summary ++ codes "\n\n")

abbrev pub summary_prompt : Text → List ChatMessage → Text
summary_prompt summary head =
    codes
      "Please compress the following conversation into a concise context description, preserving user goals, key findings, completed steps, and outstanding questions:\n\n"
    ++ (existing_lines summary ++ head_lines head)

module _ {S W : Type 0} where
  abbrev pub on_store : {A : Type 0} → Exec S A → Exec (Held S W) A
  on_store f h = let (r, s) = f h.stored in (r, record h { stored = s })

  abbrev on_world : {A : Type 0} → Exec W A → Exec (Held S W) A
  on_world f h = let (r, w) = f h.world in (r, record h { world = w })

  abbrev set_summary : Text → Exec (Held S W) (Unit {0})
  set_summary t h = (ok tt, record h { summary = t })

  abbrev notify : Option (ℕ → ℕ → Text → W → W) → ℕ → ℕ → Text → Exec (Held S W) (Unit {0})
  notify none before after t h = (ok tt, h)
  notify (some cb) before after t h = (ok tt, record h { world = cb before after t h.world })

  unfoldable pub messages : SummaryMemory S W → Context → Exec (Held S W) (List ChatMessage)
  messages m ctx = do
    raw ← on_store (m.store.list ctx)
    λ h. (ok (if is_empty h.summary then raw else message Role.system h.summary ∷ raw), h)

  -- `summarizeAndSnapshot` from the split of the messages on, and the callback.
  unfoldable pub condense :
      SummaryMemory S W → Context → List ChatMessage → List ChatMessage → Exec (Held S W) (Unit {0})
  condense m ctx head tail h =
      (do
        answer ← on_world (m.model (message Role.user (summary_prompt h.summary head) ∷ []))
        set_summary answer.content
        on_store (m.store.replace ctx tail)
        notify m.on_summary (length head + length tail) (length tail) answer.content)
        h

  unfoldable pub summarize : SummaryMemory S W → Context → Exec (Held S W) (Unit {0})
  summarize m ctx = do
    msgs ← on_store (m.store.list ctx)
    let threshold = pos_part m.threshold
    let split = length msgs - keep_n threshold
    if leb (length msgs) threshold
        then pure tt
        else if leb (length msgs) (keep_n threshold)
        then pure tt
        else condense m ctx (take split msgs) (drop split msgs)

  -- A round of the loop of `Add`: whether there is another.
  unfoldable pub add_round : SummaryMemory S W → Context → Exec (Held S W) Bool
  add_round m ctx = do
    n ← on_store (m.store.len ctx)
    if leb n (pos_part m.threshold) then pure false else (summarize m ctx >> pure true)

  -- How the loop goes on behind a round.
  abbrev next :
      (Held S W → Option (Result (Unit {0}) × Held S W))
      → Result Bool × Held S W
      → Option (Result (Unit {0}) × Held S W)
  next loop (ok true, h) = loop h
  next loop (ok false, h) = some (ok tt, h)
  next loop (err e, h) = some (err e, h)

  -- The loop, with the number of rounds that it may take; `none` where these are not enough.
  unfoldable pub add_rounds :
      ℕ → SummaryMemory S W → Context → Held S W → Option (Result (Unit {0}) × Held S W)
  add_rounds zero m ctx h = none
  add_rounds (suc n) m ctx h = next (add_rounds n m ctx) (add_round m ctx h)

  -- `Add` behind the call of `Append`.
  abbrev pub grown :
      ℕ
      → SummaryMemory S W
      → Context
      → Result (Unit {0}) × Held S W
      → Option (Result (Unit {0}) × Held S W)
  grown n m ctx (ok u, h) =
      if is_positive m.threshold then add_rounds n m ctx h else some (ok tt, h)
  grown n m ctx (err e, h) = some (err e, h)

  unfoldable pub add :
      ℕ
      → SummaryMemory S W
      → Context
      → List ChatMessage
      → Held S W
      → Option (Result (Unit {0}) × Held S W)
  add n m ctx [] h = some (ok tt, h)
  add n m ctx (x ∷ xs) h = grown n m ctx (on_store (m.store.append ctx (x ∷ xs)) h)

  unfoldable pub clear : SummaryMemory S W → Context → Exec (Held S W) (Unit {0})
  clear m ctx = set_summary [] >> on_store (m.store.clear ctx)
