-- ===== src/Skill/Context/Answers.antt =====
-- skill/context.go: how the calls of the model are answered.
use simple_agent_framework.Prelude.{
  ◌≡◌, ◌≢◌, refl, ap, List, [], ◌∷◌, ◌++◌, Bool-cases, ◌⊎◌, Option, none, some, if◌then◌else◌, inl,
  inr, arith,
}
use simple_agent_framework.Prelude.Text.{Text, codes, text_eq, text_eq_iff}
use simple_agent_framework.Errors.{Error, error_text, Context, Result, ok, err}
use simple_agent_framework.Model.{ChatMessage, ToolCall, Role}
use simple_agent_framework.Model.Value.{Value, or_empty}
use simple_agent_framework.Tool.{Tool}
use simple_agent_framework.Skill.Context.{
  AnyTool, answer_calls, by_name, or_else, output_of, called,
}

-- No tool of the list has the name.
abbrev pub IsUnknown : {W : Type 0} → Text → List (AnyTool W) → Type 0
IsUnknown name [] = Unit {0}
IsUnknown name (none ∷ ts) = IsUnknown name ts
IsUnknown name (some t ∷ ts) = (t.name ≢ name) × IsUnknown name ts

-- The last tool of the list that has the name.
abbrev pub IsLast : {W : Type 0} → Text → Tool Value W → List (AnyTool W) → Type 0
IsLast {W} name t ts =
    (before after : List (AnyTool W)) × (ts ≡ before ++ some t ∷ after)
    × (t.name ≡ name)
    × IsUnknown name after

module _ {W : Type 0} (ctx : Context) (ts : List (AnyTool W)) where
  -- What a call is answered with: that no tool has its name; or what the last tool of its name
  -- returns of its arguments, its output or the text of its error.
  abbrev pub Outcome : ToolCall → Text → W → W → Type 0
  Outcome tc out w w' =
      (IsUnknown tc.name ts × (out ≡ codes "unknown tool: " ++ tc.name) × (w' ≡ w))
      ⊎ ((t : Tool Value W) × IsLast tc.name t ts
          × ((t.execute ctx (or_empty tc.arguments) w ≡ (ok out, w'))
              ⊎ ((e : Error) × (t.execute ctx (or_empty tc.arguments) w ≡ (err e, w'))
                  × (out ≡ error_text e))))

  -- A tool message that answers the call, which takes the world from one state to the next.
  abbrev pub Answers : ToolCall → ChatMessage → W → W → Type 0
  Answers tc m w w' =
      (m.role ≡ Role.tool)
      × (m.tool_call_id ≡ tc.id)
      × (m.name ≡ tc.name)
      × Outcome tc m.content w w'

  -- The calls are run one after the other, and each has its answer, in order.
  abbrev pub AllAnswered : List ToolCall → List ChatMessage → W → W → Type 0
  AllAnswered [] [] w w' = w' ≡ w
  AllAnswered [] (m ∷ ms) w w' = ⊥
  AllAnswered (tc ∷ tcs) [] w w' = ⊥
  AllAnswered (tc ∷ tcs) (m ∷ ms) w w' =
      (between : W) × Answers tc m w between × AllAnswered tcs ms between w'

module _ {W : Type 0} (ctx : Context) (ts : List (AnyTool W)) where
  -- What `byName` finds.
  abbrev Found : Text → List (AnyTool W) → Option (Tool Value W) → Type 0
  Found name l none = IsUnknown name l
  Found name l (some t) = IsLast name t l

  Found-skip :
      (name : Text) (l : List (AnyTool W)) (o : Option (Tool Value W))
      → Found name l o
      → Found name (none ∷ l) o
  Found-skip name l none unknown = unknown
  Found-skip name l (some t) (before, after, parts, same, later) =
      (none ∷ before, after, ap (◌∷◌ none) parts, same, later)

  Found-tool :
      (name : Text) (x : Tool Value W) (l : List (AnyTool W)) (o : Option (Tool Value W))
      → Found name l o
      → Found name (some x ∷ l) (or_else o (if text_eq x.name name then some x else none))
  Found-tool name x l (some t) (before, after, parts, same, later) =
      (some x ∷ before, after, ap (◌∷◌ (some x)) parts, same, later)
  Found-tool name x l none unknown = elim (Bool-cases (text_eq x.name name)) [
    | inl same ↦ rw same ([], l, refl, (text_eq_iff x.name name).0 same, unknown)
    | inr differs ↦ rw differs (
      λ same. absurd (let e = (text_eq_iff x.name name).1 same in ground (arith, e, differs)),
      unknown,
    )
  ]

  by_name-Found : (l : List (AnyTool W)) (name : Text) → Found name l (by_name l name)
  unfolding by_name
  by_name-Found [] name = tt
  by_name-Found (none ∷ l) name = Found-skip name l (by_name l name) (by_name-Found l name)
  by_name-Found (some t ∷ l) name = Found-tool name t l (by_name l name) (by_name-Found l name)

  called-Outcome :
      (tc : ToolCall) (o : Option (Tool Value W)) (w : W)
      → Found tc.name ts o
      → let (out, w') = called ctx tc o w in Outcome ctx ts tc out w w'
  called-Outcome tc none w unknown = inl (unknown, refl, refl)
  called-Outcome tc (some t) w last = by_result (t.execute ctx (or_empty tc.arguments) w) refl
    where
      by_result :
          (r : Result Text × W)
          → t.execute ctx (or_empty tc.arguments) w ≡ r
          → Outcome ctx ts tc (output_of r).0 w (output_of r).1
      by_result (ok out, w') e = inr (t, last, inl e)
      by_result (err x, w') e = inr (t, last, inr (x, e, refl))

  pub answer_calls-AllAnswered :
      (tcs : List ToolCall) (w : W)
      → let (answers, w') = answer_calls ctx ts tcs w in AllAnswered ctx ts tcs answers w w'
  unfolding answer_calls
  answer_calls-AllAnswered [] w = refl
  answer_calls-AllAnswered (tc ∷ tcs) w =
      let (out, w') = called ctx tc (by_name ts tc.name) w in
      (
        w',
        (refl, refl, refl, called-Outcome tc (by_name ts tc.name) w (by_name-Found ts tc.name)),
        answer_calls-AllAnswered tcs w',
      )
