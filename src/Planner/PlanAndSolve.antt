-- ===== src/Planner/PlanAndSolve.antt =====
-- planner/plan_and_solve.go: a plan that the model makes once, and its steps one after the other.
pub mod Extract
pub mod Parse
pub mod Progress
pub mod Steps
pub mod Order
use simple_agent_framework.Prelude.{
  ℕ, suc, zero, Bool, true, false, if◌then◌else◌, List, [], ◌∷◌, ◌++◌, Option, none, some,
}
use simple_agent_framework.Prelude.Int.{ℤ, int_eq}
use simple_agent_framework.Prelude.Text.{Text, codes, trim_space, is_empty, decimal_int}
use simple_agent_framework.Errors.{Error, Exec, ok, err, Result, error_text}
use simple_agent_framework.Model.{ChatMessage, Role, role_text, message}
use simple_agent_framework.Planner.{
  Action, ActionType, final_answer, PlanState, PlanResult, StepResult, StepStatus, PlanStep,
  ActionPlan, ToolInfo,
}

-- The fields of `PlanAndSolvePlanner` that never change; `parse` is `parseActionPlan`, and
-- `tool_line` and `history_line` are what json and fmt print of a tool and of a step.
pub record PlanAndSolvePlanner (W : Type 0) : Type 0 where
  pub model : Option (List ChatMessage → Exec W (Option ChatMessage))
  pub plan_prompt : Text
  pub solve_prompt : Text
  pub parse : Text → Result ActionPlan
  pub tool_line : ToolInfo → Text
  pub history_line : StepResult → Text

-- The field `plan`, and the world that the model changes.
pub record Held (W : Type 0) : Type 0 where
  pub plan : Option ActionPlan
  pub world : W

abbrev default_plan_prompt : Text
default_plan_prompt =
    codes
      "You break down the user task into an ordered list of steps. Each step either calls one tool by exact name from the provided list, asks the user a question, or states a final answer. Respond with ONE JSON object only, no markdown fences. Schema: {\"steps\":[{\"step_id\":number,\"description\":string,\"type\":\"tool_call\"|\"final_answer\"|\"ask_human\",\"tool_name\":string,\"tool_input\":object,\"answer\":string}]}. Use type tool_call with tool_name and tool_input; type final_answer with answer; type ask_human with answer as the question. Omit unused fields."

abbrev default_solve_prompt : Text
default_solve_prompt =
    codes "Execute steps in order. tool_input must be a JSON object matching the tool schema."

abbrev or_default : Text → Text → Text
or_default text default = if is_empty (trim_space text) then default else trim_space text

abbrev pub later : Option ℕ → Option ℕ
later none = none
later (some i) = some (suc i)

-- `nextStep`: the place of the step.
unfoldable pub next_step : List PlanStep → Option ℕ
next_step [] = none
next_step (s ∷ ss) =
    let behind = later (next_step ss) in
    elim s.status [
      | StepStatus.done ↦ behind
      | StepStatus.skipped ↦ behind
      | StepStatus.failed ↦ none
      | StepStatus.running ↦ none
      | StepStatus.pending ↦ some 0
    ]

unfoldable pub running_step : List PlanStep → Option PlanStep
running_step [] = none
running_step (s ∷ ss) =
    let behind = running_step ss in elim s.status [ StepStatus.running ↦ some s | _ ↦ behind ]

-- `step.Status = StepRunning`, at the place that `nextStep` found; the step before the change.
unfoldable pub start_step : ℕ → List PlanStep → List PlanStep
start_step n [] = []
start_step zero (s ∷ ss) = record s { status = StepStatus.running } ∷ ss
start_step (suc n) (s ∷ ss) = s ∷ start_step n ss

unfoldable pub step_at : ℕ → List PlanStep → Option PlanStep
step_at n [] = none
step_at zero (s ∷ ss) = some s
step_at (suc n) (s ∷ ss) = step_at n ss

-- The loop of both `Mark` methods: the first step with the identifier.
unfoldable pub mark_step : ℤ → StepStatus → Text → List PlanStep → List PlanStep
mark_step id status result [] = []
mark_step id status result (s ∷ ss) =
    let behind = s ∷ mark_step id status result ss in
    if int_eq s.step_id id then record s { status = status; result = result } ∷ ss else behind

abbrev is_done : StepStatus → Bool
is_done StepStatus.done = true
is_done _ = false

abbrev step_line : PlanStep → Text
step_line s =
    codes "Step "
    ++ (decimal_int s.step_id
        ++ (codes " (" ++ (s.description ++ (codes "): " ++ (trim_space s.result ++ codes "\n")))))

abbrev results : List PlanStep → Text
results [] = []
results (s ∷ ss) =
    (if is_done s.status then (if is_empty (trim_space s.result) then [] else step_line s) else [])
    ++ results ss

unfoldable pub summarize_results : Option ActionPlan → Text
summarize_results none = []
summarize_results (some ap) =
    let out = trim_space (results ap.steps) in
    if is_empty out then codes "All planned steps finished." else out

abbrev note_line : PlanStep → Text → Text
note_line s how =
    codes "step "
    ++ (decimal_int s.step_id
        ++ (codes " ("
            ++ (s.description
                ++ (codes ") " ++ (how ++ (codes ": " ++ (s.result ++ codes "\n")))))))

abbrev notes : List PlanStep → Text
notes [] = []
notes (s ∷ ss) =
    elim s.status [
      | StepStatus.done ↦ note_line s (codes "done")
      | StepStatus.failed ↦ note_line s (codes "failed")
      | _ ↦ []
    ]
    ++ notes ss

abbrev concat_map : {A : Type 0} → (A → Text) → List A → Text
concat_map f [] = []
concat_map f (x ∷ xs) = f x ++ concat_map f xs

module _ {W : Type 0} (p : PlanAndSolvePlanner W) where
  unfoldable pub format_tools_for_plan : List ToolInfo → Text
  format_tools_for_plan [] = codes "Available tools: none."
  format_tools_for_plan (t ∷ ts) =
      codes "Available tools (JSON lines):\n"
      ++ concat_map (λ x. p.tool_line x ++ codes "\n") (t ∷ ts)

  abbrev user_text : PlanState → Text
  user_text state = elim state.messages [
    | [] ↦ format_tools_for_plan state.tools
    | m ∷ ms ↦
        concat_map (λ x. role_text x.role ++ (codes ": " ++ (x.content ++ codes "\n"))) (m ∷ ms)
        ++ (codes "\n" ++ format_tools_for_plan state.tools)
  ]

  abbrev system_text : Text → Text
  system_text completed =
      or_default p.plan_prompt default_plan_prompt
      ++ (codes "\n\n"
          ++ (or_default p.solve_prompt default_solve_prompt
              ++ (if is_empty completed
                  then []
                  else codes "\n\nCompleted work and results (respect and build on this):\n"
                    ++ completed)))

  -- What the model's answer makes of the plan.
  abbrev pub planned : Held W → Result (Option ChatMessage) × W → Result (Unit {0}) × Held W
  planned h (err e, w) = (err e, record h { world = w })
  planned h (ok none, w) =
      (err (Error.other (codes "plan-and-solve: empty response")), record h { world = w })
  planned h (ok (some reply), w) = elim (p.parse reply.content) [
    | err e ↦ (err e, record h { world = w })
    | ok ap ↦ (ok tt, record h { plan = some ap; world = w })
  ]

  -- `Replan` calls it without a test of the model for nil: the method of a nil interface panics,
  -- which the model writes as an error of its own.
  unfoldable pub generate_plan_with_notes : Text → PlanState → Exec (Held W) (Unit {0})
  generate_plan_with_notes completed state h = asked p.model
    where
      asked : Option (List ChatMessage → Exec W (Option ChatMessage)) → Result (Unit {0}) × Held W
      asked none = (err (Error.other (codes "nil model")), h)
      asked (some generate) = planned h (
          generate
            (message Role.system (system_text completed) ∷ message Role.user (user_text state) ∷ [])
            h.world)

  -- `Plan`, once there is a plan.
  unfoldable pub take_step : Exec (Held W) PlanResult
  take_step h = elim h.plan [
    | none ↦ (ok (record { action = final; reasoning = [] }), h)
    | some ap ↦ elim (running_step ap.steps) [
      | some rs ↦ (
        err (
            Error.other (
              codes "plan-and-solve: step "
              ++ (decimal_int rs.step_id
                  ++ codes " still running; call MarkStepDone or MarkStepFailed first"))),
        h,
      )
      | none ↦ elim (next_step ap.steps) [
        | none ↦ (ok (record { action = final; reasoning = [] }), h)
        | some i ↦ elim (step_at i ap.steps) [
          | none ↦ (ok (record { action = final; reasoning = [] }), h)
          | some s ↦ (
            ok (record { action = s.action; reasoning = s.description }),
            record h { plan = some (record { steps = start_step i ap.steps; current_step = i }) },
          )
        ]
      ]
    ]
  ]
    where
      final : Action
      final = record {
        kind = final_answer;
        tool_name = [];
        tool_input = none;
        answer = summarize_results h.plan;
      }

  abbrev pub then_take : Result (Unit {0}) × Held W → Result PlanResult × Held W
  then_take (err e, h') = (err e, h')
  then_take (ok u, h') = take_step h'

  unfoldable pub plan : PlanState → Exec (Held W) PlanResult
  plan state h = elim p.model [
    | none ↦ (err (Error.other (codes "plan-and-solve: model is nil")), h)
    | some generate ↦ elim h.plan [
      | some ap ↦ take_step h
      | none ↦ then_take (generate_plan_with_notes [] state h)
    ]
  ]

  unfoldable pub replan : PlanState → Exec (Held W) (Unit {0})
  replan state h =
      generate_plan_with_notes
        (trim_space (old_notes h.plan ++ concat_map p.history_line state.history)) state
        (record h { plan = none })
    where
      old_notes : Option ActionPlan → Text
      old_notes none = []
      old_notes (some ap) = notes ap.steps

-- What both `Mark` methods do, where there is a plan.
unfoldable pub marked : {W : Type 0} → ℤ → StepStatus → Text → Held W → Held W
marked id status result h = elim h.plan [
  | none ↦ h
  | some ap ↦ record h { plan = some (record ap { steps = mark_step id status result ap.steps }) }
]

unfoldable pub mark_step_done : {W : Type 0} → ℤ → Text → Held W → Held W
unfolding marked
mark_step_done id result h = marked id StepStatus.done result h

abbrev text_of : Option Error → Text
text_of none = []
text_of (some e) = error_text e

unfoldable pub mark_step_failed : {W : Type 0} → ℤ → Option Error → Held W → Held W
unfolding marked
mark_step_failed id e h = marked id StepStatus.failed (text_of e) h
