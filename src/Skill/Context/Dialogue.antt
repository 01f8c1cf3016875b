-- ===== src/Skill/Context/Dialogue.antt =====
-- skill/context.go: how a skill's conversation goes.
use simple_agent_framework.Prelude.{
  ℕ, zero, suc, ◌+◌, ◌≡◌, ◌≢◌, refl, ap, sym, ◌∙◌, true, false, List, [], ◌∷◌, ◌++◌, Bool-cases,
  inl, inr, arith,
}
use mathlib.Core.List.{append-nil, append_assoc}
use simple_agent_framework.Prelude.Int.{pos_part}
use simple_agent_framework.Prelude.Text.{Text, is_empty}
use simple_agent_framework.Errors.{Error, error_text, Exec, Context, Result, ok, err}
use simple_agent_framework.Model.{ChatMessage, ToolCall, Role, ChatResponse, message}
use simple_agent_framework.Model.Options.{ToolDef}
use simple_agent_framework.Skill.{DirSkill}
use simple_agent_framework.Skill.Context.Answers.{AllAnswered, answer_calls-AllAnswered}
use simple_agent_framework.Skill.Context.{
  AnyTool, Chat, tokens_of, new_context, tool_defs, answer_calls, rounds, run, second_content,
}

module _ {W : Type 0} (generate : List ChatMessage → List ToolDef → Exec W ChatResponse)
    (ctx : Context) (ts : List (AnyTool W)) where
  -- A conversation of at most so many rounds, from the messages so far and a state of the world: the
  -- messages that it adds, what it results in, the rounds that it takes, the tokens, and the state of
  -- the world at its end. Each round begins with what the model answers to all messages so far.
  pub data Dialogue : ℕ → List ChatMessage → W → List ChatMessage → Text → ℕ → ℕ → W → Type 0 where
    spent : (said : List ChatMessage) (w : W) → Dialogue 0 said w [] [] 0 0 w
    failed :
        (n : ℕ) (said : List ChatMessage) (w w' : W) (e : Error)
        → generate said (tool_defs ts) w ≡ (err e, w')
        → Dialogue (suc n) said w [] (error_text e) 1 0 w'
    replied :
        (n : ℕ) (said : List ChatMessage) (w w' : W) (r : ChatResponse)
        → generate said (tool_defs ts) w ≡ (ok r, w')
        → r.message.tool_calls ≡ []
        → is_empty r.message.content ≡ false
        → Dialogue (suc n) said w (r.message ∷ []) r.message.content 1 (tokens_of r.usage) w'
    silent :
        (n : ℕ) (said : List ChatMessage) (w w' w'' : W) (r : ChatResponse) (ms : List ChatMessage)
        (t : Text) (steps tokens : ℕ)
        → generate said (tool_defs ts) w ≡ (ok r, w')
        → r.message.tool_calls ≡ []
        → is_empty r.message.content ≡ true
        → Dialogue n (said ++ r.message ∷ []) w' ms t steps tokens w''
        → Dialogue (suc n) said w (r.message ∷ ms) t (suc steps) (tokens_of r.usage + tokens) w''
    called_tools :
        (n : ℕ) (said : List ChatMessage) (w w' between w'' : W) (r : ChatResponse)
        (answers ms : List ChatMessage) (t : Text) (steps tokens : ℕ)
        → generate said (tool_defs ts) w ≡ (ok r, w')
        → r.message.tool_calls ≢ []
        → AllAnswered ctx ts r.message.tool_calls answers w' between
        → Dialogue n ((said ++ r.message ∷ []) ++ answers) between ms t steps tokens w''
        → Dialogue
            (suc n)
            said
            w
            (r.message ∷ (answers ++ ms))
            t
            (suc steps)
            (tokens_of r.usage + tokens)
            w''

module _ {W : Type 0} (generate : List ChatMessage → List ToolDef → Exec W ChatResponse)
    (ctx : Context) (ts : List (AnyTool W)) where
  -- What the loop adds to a conversation.
  record Went (n : ℕ) (c : Chat) (w : W) (out : Text × Chat × W) : Type 0 where
    pub added : List ChatMessage
    pub steps : ℕ
    pub tokens : ℕ
    pub dialogue : Dialogue generate ctx ts n c.messages w added out.0 steps tokens out.2
    pub transcript : out.1.messages ≡ c.messages ++ added
    pub counted : out.1.steps ≡ c.steps + steps
    pub summed : out.1.total_tokens ≡ c.total_tokens + tokens

  rounds-Went : (n : ℕ) (c : Chat) (w : W) → Went n c w (rounds generate ctx ts n c w)
  unfolding rounds
  rounds-Went zero c w = record {
    added = [];
    steps = 0;
    tokens = 0;
    dialogue = Dialogue.spent c.messages w;
    transcript = sym (append-nil c.messages);
    counted = omega arith;
    summed = omega arith;
  }
  rounds-Went (suc n) c w = by_answer asked.0 refl (rounds-Went n)
    where
      asked : Result ChatResponse × W
      asked = generate c.messages (tool_defs ts) w

      replied_chat : ChatResponse → Chat
      replied_chat r = record {
        messages = c.messages ++ r.message ∷ [];
        total_tokens = c.total_tokens + tokens_of r.usage;
        steps = suc c.steps;
      }

      answered_by :
          (r : ChatResponse)
          → asked.0 ≡ ok r
          → generate c.messages (tool_defs ts) w ≡ (ok r, asked.1)
      answered_by r e = ap (λ a. (a, asked.1)) e

      by_calls :
          (r : ChatResponse)
          → asked.0 ≡ ok r
          → (l : List ToolCall) → r.message.tool_calls ≡ l
          → ((c' : Chat) (w' : W) → Went n c' w' (rounds generate ctx ts n c' w'))
          → Went (suc n) c w (rounds generate ctx ts (suc n) c w)
      by_calls r e [] none_asked ih = elim (Bool-cases (is_empty r.message.content)) [
        | inl blank ↦
            (let went = ih (replied_chat r) asked.1 in
              rw (rounds, e, none_asked, blank)
                (record {
                  added = r.message ∷ went.added;
                  steps = suc went.steps;
                  tokens = tokens_of r.usage + went.tokens;
                  dialogue =
                      Dialogue.silent n c.messages w asked.1 _ r went.added _ went.steps went.tokens
                        (answered_by r e) none_asked blank went.dialogue;
                  transcript =
                      went.transcript ∙ append_assoc c.messages (r.message ∷ []) went.added;
                  counted = omega (arith, went.counted);
                  summed = omega (arith, went.summed);
                }))
        | inr given ↦
            rw (rounds, e, none_asked, given)
              (record {
                added = r.message ∷ [];
                steps = 1;
                tokens = tokens_of r.usage;
                dialogue =
                    Dialogue.replied n c.messages w asked.1 r (answered_by r e) none_asked given;
                transcript = refl;
                counted = omega arith;
                summed = refl;
              })
      ]
      by_calls r e (tc ∷ tcs) some_asked ih =
          let answered = answer_calls ctx ts (tc ∷ tcs) asked.1 in
          let went =
            ih
              (record {
                messages = (replied_chat r).messages ++ answered.0;
                total_tokens = (replied_chat r).total_tokens;
                steps = (replied_chat r).steps;
              })
              answered.1 in
          rw (rounds, e, some_asked)
            (record {
              added = r.message ∷ (answered.0 ++ went.added);
              steps = suc went.steps;
              tokens = tokens_of r.usage + went.tokens;
              dialogue =
                  Dialogue.called_tools n c.messages w asked.1 answered.1 _ r answered.0 went.added
                    _ went.steps went.tokens (answered_by r e)
                    (λ none_asked. ground (arith, some_asked, none_asked))
                    (rw some_asked (answer_calls-AllAnswered ctx ts (tc ∷ tcs) asked.1))
                    went.dialogue;
              transcript =
                  went.transcript
                  ∙ append_assoc (c.messages ++ r.message ∷ []) answered.0 went.added
                  ∙ append_assoc c.messages (r.message ∷ []) (answered.0 ++ went.added);
              counted = omega (arith, went.counted);
              summed = omega (arith, went.summed);
            })

      by_answer :
          (a : Result ChatResponse)
          → asked.0 ≡ a
          → ((c' : Chat) (w' : W) → Went n c' w' (rounds generate ctx ts n c' w'))
          → Went (suc n) c w (rounds generate ctx ts (suc n) c w)
      by_answer (err x) e ih =
          rw (rounds, e)
            (record {
              added = [];
              steps = 1;
              tokens = 0;
              dialogue = Dialogue.failed n c.messages w asked.1 x (ap (λ a. (a, asked.1)) e);
              transcript = sym (append-nil c.messages);
              counted = omega arith;
              summed = omega arith;
            })
      by_answer (ok r) e ih = by_calls r e r.message.tool_calls refl ih

module _ {W : Type 0} (generate : List ChatMessage → List ToolDef → Exec W ChatResponse)
    (ctx : Context) where
  -- A skill's conversation begins with its instruction and the user's input, and goes on for at most
  -- `maxIter` rounds; in each the model is asked once, about all messages so far. Every call of a tool
  -- is answered by a tool message of its own, in the order of the calls, before the model is asked
  -- again: with what the last tool of that name returns, its output or its error, or that there is no
  -- such tool. It ends with the first text without a call, which is the result; or when the model
  -- fails, with its error for the result; or when the rounds are spent, with no result. The log has the
  -- transcript, the rounds and the tokens of it, and the world is left as the model and the tools left
  -- it.
  pub run-Dialogue :
      (s : DirSkill (AnyTool W)) (user_input instruction : Text) (w : W)
      → let (answer, log, w') = run generate ctx (new_context s user_input instruction) w in
        (added : List ChatMessage) × Dialogue generate ctx s.tools
          (pos_part s.max_iter)
          (message Role.system instruction ∷ message Role.user user_input ∷ [])
          w
          added
          answer
          log.steps
          log.tokens_used
          w'
        × (log.messages ≡ message Role.system instruction ∷ message Role.user user_input ∷ added)
        × (log.input ≡ user_input)
        × (log.result ≡ answer)
  unfolding run new_context
  run-Dialogue s user_input instruction w =
      let began : Chat = record {
        messages = (new_context s user_input instruction).messages;
        total_tokens = 0;
        steps = 0;
      } in
      let out = rounds generate ctx s.tools (pos_part s.max_iter) began w in
      let went = rounds-Went generate ctx s.tools (pos_part s.max_iter) began w in
      let steps : out.1.steps ≡ went.steps = went.counted ∙ omega arith in
      let tokens : out.1.total_tokens ≡ went.tokens = went.summed ∙ omega arith in
      (
        went.added,
        rw (steps, tokens) went.dialogue,
        went.transcript,
        ap second_content went.transcript,
        refl,
      )
