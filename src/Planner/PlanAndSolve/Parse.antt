-- ===== src/Planner/PlanAndSolve/Parse.antt =====
-- planner/plan_and_solve.go: the plan in the model's answer.
use simple_agent_framework.Prelude.{
  ℕ, suc, Bool, false, not, ◌&&◌, ◌||◌, if◌then◌else◌, List, [], ◌∷◌, ◌++◌, Option, none, some, ◌≡◌,
  refl, ap, sym, ◌∙◌, ◌≤◌, arith, Bool-cases, inl, inr,
}
use simple_agent_framework.Prelude.Int.{ℤ, pos, int_eq}
use simple_agent_framework.Prelude.Text.{Text, codes, text_eq, is_empty, trim_space, to_lower}
use simple_agent_framework.Errors.{Error, ok, err, Result}
use simple_agent_framework.Model.Value.{Value, Input, end, field}
use simple_agent_framework.Planner.{
  Action, ActionType, tool_call, final_answer, ask_human, StepStatus, PlanStep, ActionPlan,
}
use simple_agent_framework.Planner.PlanAndSolve.Progress.{
  running_count, plan_running, Call, calls, calls-one_running,
}
use simple_agent_framework.Planner.PlanAndSolve.{PlanAndSolvePlanner}
use simple_agent_framework.Planner.PlanAndSolve.Extract.{extract_json_object}

pub record RawPlanStep : Type 0 where
  pub step_id : ℤ
  pub description : Text
  pub kind : Text
  pub tool_name : Text
  pub tool_input : Text
  pub answer : Text
  pub nested_action : Text

pub record Nested : Type 0 where
  pub kind : Text
  pub tool_name : Text
  pub tool_input : Text
  pub answer : Text

-- What `json.Unmarshal` makes of a text as each of the types it is asked for, and `%q` of a text.
pub record Json : Type 0 where
  pub plan_file : Text → Result (List RawPlanStep)
  pub nested : Text → Option Nested
  pub object : Text → Option Input
  pub string : Text → Option Text
  pub quote : Text → Text

module _ (json : Json) where
  abbrev from_string : Text → Input
  from_string text = if is_empty text then some end else (elim (json.object text) [
    | some m ↦ m
    | none ↦ some (field (codes "input") (Value.str text) end)
  ])

  unfoldable pub parse_tool_input_raw : Text → Input
  parse_tool_input_raw raw =
      if is_empty (trim_space raw) || text_eq (trim_space raw) (codes "null")
      then some end
      else (elim (json.object raw) [
        | some m ↦ m
        | none ↦ elim (json.string raw) [
          | some text ↦ from_string (trim_space text)
          | none ↦ some (field (codes "_raw") (Value.str raw) end)
        ]
      ])

  abbrev answered : ActionType → RawPlanStep → Action
  answered kind rs = record {
    kind = kind;
    tool_name = [];
    tool_input = none;
    answer = trim_space rs.answer;
  }

  abbrev called : RawPlanStep → Action
  called rs = record {
    kind = tool_call;
    tool_name = trim_space rs.tool_name;
    tool_input = parse_tool_input_raw rs.tool_input;
    answer = [];
  }

  -- The nested action takes the place of the step's fields, where it has any of its own.
  abbrev with_nested : RawPlanStep → RawPlanStep
  with_nested rs = if is_empty rs.nested_action then rs else (elim (json.nested rs.nested_action) [
    | none ↦ rs
    | some inner ↦
        if is_empty inner.kind && is_empty inner.tool_name && is_empty inner.answer
        then rs
        else record rs {
          kind = inner.kind;
          tool_name = inner.tool_name;
          tool_input = inner.tool_input;
          answer = inner.answer;
        }
  ])

  abbrev one_of : Text → List Text → Bool
  one_of t [] = false
  one_of t (x ∷ xs) = text_eq t x || one_of t xs

  -- What follows the `switch`.
  abbrev by_fields : RawPlanStep → Result Action
  by_fields rs =
      if not (is_empty (trim_space rs.answer)) && is_empty rs.tool_name && is_empty rs.tool_input
      then ok (answered final_answer rs)
      else if not (is_empty (trim_space rs.tool_name))
      then ok (called rs)
      else err (
          Error.other (
            codes "plan-and-solve: cannot map step to action (type="
            ++ (json.quote rs.kind ++ codes ")")))

  abbrev by_type : RawPlanStep → Result Action
  by_type rs =
      let typ = to_lower (trim_space rs.kind) in
      if one_of typ (codes "tool_call" ∷ codes "tool" ∷ codes "call" ∷ [] ∷ [])
      then (if is_empty (trim_space rs.tool_name) && is_empty rs.tool_input
          then by_fields rs
          else ok (called rs))
      else if one_of typ (codes "final_answer" ∷ codes "answer" ∷ codes "final" ∷ [])
      then ok (answered final_answer rs)
      else if one_of typ (codes "ask_human" ∷ codes "human" ∷ codes "clarify" ∷ [])
      then ok (answered ask_human rs)
      else by_fields rs

  unfoldable pub raw_step_to_action : RawPlanStep → Result Action
  raw_step_to_action rs = by_type (with_nested rs)

  abbrev step_of : ℕ → RawPlanStep → Action → PlanStep
  step_of i rs act = record {
    step_id = if int_eq rs.step_id (pos 0) then pos (suc i) else rs.step_id;
    description = trim_space rs.description;
    action = act;
    status = StepStatus.pending;
    result = [];
  }

  abbrev prepend : PlanStep → Result (List PlanStep) → Result (List PlanStep)
  prepend s (ok ss) = ok (s ∷ ss)
  prepend s (err e) = err e

  -- The loop of `parseActionPlan`, from the index `i` on.
  unfoldable pub steps_from : ℕ → List RawPlanStep → Result (List PlanStep)
  steps_from i [] = ok []
  steps_from i (rs ∷ rest) =
      let behind = steps_from (suc i) rest in
      elim (raw_step_to_action rs) [ err e ↦ err e | ok act ↦ prepend (step_of i rs act) behind ]

  abbrev as_plan : Result (List PlanStep) → Result ActionPlan
  as_plan (err e) = err e
  as_plan (ok ss) = ok (record { steps = ss; current_step = 0 })

  abbrev from_file : Result (List RawPlanStep) → Result ActionPlan
  from_file (err e) = err e
  from_file (ok []) = err (Error.other (codes "plan-and-solve: plan has no steps"))
  from_file (ok (rs ∷ rest)) = as_plan (steps_from 0 (rs ∷ rest))

  unfoldable pub parse_action_plan : Text → Result ActionPlan
  unfolding extract_json_object
  parse_action_plan content =
      let raw = extract_json_object (trim_space content) in
      if is_empty raw
      then err (Error.other (codes "plan-and-solve: no JSON object in model output"))
      else from_file (json.plan_file raw)

  steps_from-count :
      (i : ℕ) (l : List RawPlanStep) (ss : List PlanStep)
      → steps_from i l ≡ ok ss
      → running_count ss ≡ 0
  unfolding steps_from running_count
  steps_from-count i [] ss h = ground arith
  steps_from-count i (rs ∷ rest) ss h = grind (arith, steps_from-count (suc i) rest)

  -- In a plan that is parsed, no step is running.
  pub parse_action_plan-count :
      (content : Text) (plan : ActionPlan)
      → parse_action_plan content ≡ ok plan
      → running_count plan.steps ≡ 0
  unfolding parse_action_plan
  parse_action_plan-count content plan h =
      elim (Bool-cases (is_empty (extract_json_object (trim_space content)))) [
        | inl empty ↦ absurd (let h' = rw (parse_action_plan, empty) at h in cc)
        | inr found ↦
            in_file (json.plan_file (extract_json_object (trim_space content))) plan
              (rw (parse_action_plan, found) at h)
      ]
    where
      in_file :
          (r : Result (List RawPlanStep)) (plan : ActionPlan)
          → from_file r ≡ ok plan
          → running_count plan.steps ≡ 0
      in_file (err e) plan h = absurd (cc)
      in_file (ok []) plan h = absurd (cc)
      in_file (ok (rs ∷ rest)) plan h = in_steps (steps_from 0 (rs ∷ rest)) refl h
        where
          in_steps :
              (r : Result (List PlanStep))
              → steps_from 0 (rs ∷ rest) ≡ r
              → as_plan r ≡ ok plan
              → running_count plan.steps ≡ 0
          in_steps (err e) same h = absurd (cc)
          in_steps (ok ss) same h = ground (arith, steps_from-count 0 (rs ∷ rest) ss same)

  -- Whatever is called, and in whatever order, at most one step of the plan is running at any time,
  -- where the planner starts without a plan and the model's answers are parsed by
  -- `parseActionPlan`.
  pub calls-one_running_at_once :
      {W : Type 0} (p : PlanAndSolvePlanner W) (cs : List Call) (w : W)
      → p.parse ≡ parse_action_plan
      → plan_running (calls p cs (record { plan = none; world = w })).plan ≤ 1
  calls-one_running_at_once p cs w same =
      calls-one_running p
        (λ t made h. parse_action_plan-count t made (sym (ap (λ f. f t) same) ∙ h)) cs
        (record { plan = none; world = w }) (omega arith)
