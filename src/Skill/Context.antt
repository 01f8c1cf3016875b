-- ===== src/Skill/Context.antt =====
-- skill/context.go: a skill's own conversation with the model. The tools of a skill are of any type,
-- which reflection tells apart: `none` is a value that is no tool.
pub mod Answers
pub mod Dialogue
use simple_agent_framework.Prelude.{
  ℕ, zero, suc, ◌+◌, ltb, Bool, true, false, if◌then◌else◌, List, [], ◌∷◌, ◌++◌, Option, none, some,
}
use simple_agent_framework.Prelude.Int.{ℤ, pos_part}
use simple_agent_framework.Prelude.Text.{Text, codes, is_empty, text_eq}
use simple_agent_framework.Errors.{Error, error_text, Exec, Context, Result, ok, err}
use simple_agent_framework.Model.{ChatMessage, ToolCall, Role, Usage, ChatResponse, message}
use simple_agent_framework.Model.Value.{Value, Input, end, or_empty}
use simple_agent_framework.Model.Options.{ToolDef}
use simple_agent_framework.Tool.{Tool}
use simple_agent_framework.Skill.{DirSkill}

abbrev pub AnyTool : Type 0 → Type 0
AnyTool W = Option (Tool Value W)

pub record SkillContext (W : Type 0) : Type 0 where
  pub skill : DirSkill (AnyTool W)
  pub messages : List ChatMessage

pub record SkillContextLog : Type 0 where
  pub skill_name : Text
  pub input : Text
  pub messages : List ChatMessage
  pub result : Text
  pub tokens_used : ℕ
  pub steps : ℕ

-- The variables of the loop.
pub record Chat : Type 0 where
  pub messages : List ChatMessage
  pub total_tokens : ℕ
  pub steps : ℕ

-- The total that is reported, or the sum of its parts.
abbrev pub tokens_of : Usage → ℕ
tokens_of u = if ltb 0 u.total_tokens then u.total_tokens else u.prompt_tokens + u.completion_tokens

abbrev pub tool_answer : ToolCall → Text → ChatMessage
tool_answer tc content = record {
  role = Role.tool;
  content = content;
  tool_calls = [];
  tool_call_id = tc.id;
  name = tc.name;
}

abbrev pub second_content : List ChatMessage → Text
second_content (a ∷ b ∷ ms) = b.content
second_content _ = []

module _ {W : Type 0} where
  unfoldable pub new_context : DirSkill (AnyTool W) → Text → Text → SkillContext W
  new_context s user_input instruction = record {
    skill = s;
    messages = message Role.system instruction ∷ message Role.user user_input ∷ [];
  }

  unfoldable pub tool_defs : List (AnyTool W) → List ToolDef
  tool_defs [] = []
  tool_defs (none ∷ ts) = tool_defs ts
  tool_defs (some t ∷ ts) =
      record { name = t.name; description = t.description; parameters = t.schema } ∷ tool_defs ts

  abbrev pub or_else : Option (Tool Value W) → Option (Tool Value W) → Option (Tool Value W)
  or_else none b = b
  or_else (some a) b = some a

  -- `byName[name]`: the last tool of that name.
  unfoldable pub by_name : List (AnyTool W) → Text → Option (Tool Value W)
  by_name [] name = none
  by_name (none ∷ ts) name = by_name ts name
  by_name (some t ∷ ts) name =
      or_else (by_name ts name) (if text_eq t.name name then some t else none)

  abbrev pub output_of : Result Text × W → Text × W
  output_of (ok out, w) = (out, w)
  output_of (err e, w) = (error_text e, w)

  -- What one call is answered with.
  abbrev pub called : Context → ToolCall → Option (Tool Value W) → W → Text × W
  called ctx tc none w = (codes "unknown tool: " ++ tc.name, w)
  called ctx tc (some t) w = output_of (t.execute ctx (or_empty tc.arguments) w)

  unfoldable pub answer_calls :
      Context → List (AnyTool W) → List ToolCall → W → List ChatMessage × W
  answer_calls ctx ts [] w = ([], w)
  answer_calls ctx ts (tc ∷ tcs) w =
      let (out, w') = called ctx tc (by_name ts tc.name) w in
      let (answers, w'') = answer_calls ctx ts tcs w' in (tool_answer tc out ∷ answers, w'')

  -- The model's `Generate`, with the tools where there are any.
  module _ (generate : List ChatMessage → List ToolDef → Exec W ChatResponse) (ctx : Context)
      (ts : List (AnyTool W)) where
    -- The loop with `n` rounds left.
    unfoldable pub rounds : ℕ → Chat → W → Text × Chat × W
    unfolding answer_calls
    rounds zero c w = ([], c, w)
    rounds (suc n) c w =
        let (answer, w') = generate c.messages (tool_defs ts) w in
        elim answer [
          | err e ↦ (error_text e, record c { steps = suc c.steps }, w')
          | ok resp ↦
              (let msg = resp.message in
                let c' : Chat = record {
                  messages = c.messages ++ msg ∷ [];
                  total_tokens = c.total_tokens + tokens_of resp.usage;
                  steps = suc c.steps;
                } in
                elim msg.tool_calls [
                  | [] ↦
                      (let more = rounds n c' w' in
                        if is_empty msg.content then more else (msg.content, c', w'))
                  | tc ∷ tcs ↦
                      (let (answers, w'') = answer_calls ctx ts (tc ∷ tcs) w' in
                        rounds n (record c' { messages = c'.messages ++ answers }) w'')
                ])
        ]

  abbrev logged : SkillContext W → Text × Chat × W → Text × SkillContextLog × W
  logged sc (answer, c, w) = (
    answer,
    record {
      skill_name = sc.skill.name;
      input = second_content c.messages;
      messages = c.messages;
      result = answer;
      tokens_used = c.total_tokens;
      steps = c.steps;
    },
    w,
  )

  unfoldable pub run :
      (List ChatMessage → List ToolDef → Exec W ChatResponse)
      → Context
      → SkillContext W
      → W
      → Text × SkillContextLog × W
  unfolding rounds
  run generate ctx sc w = logged sc (
      rounds generate ctx sc.skill.tools (pos_part sc.skill.max_iter)
        (record { messages = sc.messages; total_tokens = 0; steps = 0 }) w)
