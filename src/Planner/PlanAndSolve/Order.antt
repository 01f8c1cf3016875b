-- ===== src/Planner/PlanAndSolve/Order.antt =====
-- planner/plan_and_solve.go: the steps are run in the order of the plan, each once.
use simple_agent_framework.Prelude.{
  ℕ, suc, zero, ◌≡◌, refl, ap, sym, ◌∙◌, true, not, ◌&&◌, List, [], ◌∷◌, ◌++◌, map, all, Option,
  none, some, length, all-append, arith,
}
use simple_agent_framework.Prelude.Int.{ℤ, int_eq}
use simple_agent_framework.Prelude.Text.{Text}
use simple_agent_framework.Errors.{Exec, ok, Result}
use simple_agent_framework.Model.{ChatMessage}
use simple_agent_framework.Planner.{final_answer, PlanState, PlanResult, PlanStep}
use simple_agent_framework.Planner.PlanAndSolve.{
  PlanAndSolvePlanner, Held, running_step, take_step, plan, mark_step_done, marked,
  summarize_results,
}
use mathlib.Core.List.{append_assoc, append-nil}
use simple_agent_framework.Planner.PlanAndSolve.Steps.{
  is_settled, is_pending, absent, distinct_from, distinct_ids, running_now, done_with, next_step-at,
  next_step-end, step_at-length, start_step-length, running_step-none, running_step-found,
  mark_step-found,
}

module _ {W : Type 0} (p : PlanAndSolvePlanner W) (output : PlanStep → Text) where
  -- What the loop does with the step that is running, once its action has been executed.
  unfoldable pub settle : Held W → Held W
  settle h = elim h.plan [
    | none ↦ h
    | some ap ↦ elim (running_step ap.steps) [
      | none ↦ h
      | some s ↦ mark_step_done s.step_id (output s) h
    ]
  ]

  -- `Plan` and `MarkStepDone`, `n` times: the results of `Plan`, and the planner behind them.
  unfoldable pub run_steps : ℕ → PlanState → Held W → List (Result PlanResult) × Held W
  run_steps zero state h = ([], h)
  run_steps (suc n) state h =
      let (r, h') = plan p state h in let (rs, h'') = run_steps n state (settle h') in (r ∷ rs, h'')

  abbrev pub expected : PlanStep → Result PlanResult
  expected s = ok (record { action = s.action; reasoning = s.description })

  abbrev pub holding : Held W → List PlanStep → ℕ → Held W
  holding h ss c = record h { plan = some (record { steps = ss; current_step = c }) }

  take_step-at :
      (h : Held W) (c : ℕ) (before : List PlanStep) (s : PlanStep) (rest : List PlanStep)
      → all is_settled before ≡ true
      → is_pending s ≡ true
      → all is_pending rest ≡ true
      → take_step p (holding h (before ++ s ∷ rest) c)
        ≡ (expected s, holding h (before ++ running_now s ∷ rest) (length before))
  unfolding take_step
  take_step-at h c before s rest b q qs =
      rw
        (
          take_step,
          running_step-none before (s ∷ rest) b (rw q qs),
          next_step-at before s rest b q,
          step_at-length before s rest,
          start_step-length before s rest,
        )
        refl

  settle-at :
      (h : Held W) (c : ℕ) (before : List PlanStep) (s : PlanStep) (rest : List PlanStep)
      → all is_settled before ≡ true
      → absent s.step_id before ≡ true
      → settle (holding h (before ++ running_now s ∷ rest) c)
        ≡ holding h (before ++ done_with (output (running_now s)) s ∷ rest) c
  unfolding settle mark_step_done marked
  settle-at h c before s rest b a =
      rw
        (
          settle,
          mark_step_done,
          marked,
          running_step-found before s rest b,
          mark_step-found before s rest (output (running_now s)) a,
        )
        refl

  abbrev pub settled_step : PlanStep → PlanStep
  settled_step s = done_with (output (running_now s)) s

  -- The results are those of the steps, which are all done then.
  abbrev Ran : Held W → List PlanStep → List PlanStep → List (Result PlanResult) × Held W → Type 0
  Ran h before rest out =
      (out.0 ≡ map expected rest)
      × ((c : ℕ) × (out.1 ≡ holding h (before ++ map settled_step rest) c))

  plan-held :
      (m : List ChatMessage → Exec W (Option ChatMessage)) (h : Held W) (ss : List PlanStep) (c : ℕ)
      (state : PlanState)
      → p.model ≡ some m
      → plan p state (holding h ss c) ≡ take_step p (holding h ss c)
  unfolding plan take_step
  plan-held m h ss c state given = rw (plan, given) refl

  absent-snoc :
      (id : ℤ) (before : List PlanStep) (s : PlanStep)
      → absent id (before ++ s ∷ []) ≡ absent id (s ∷ before)
  absent-snoc id before s =
      all-append (λ x. not (int_eq x.step_id id)) before (s ∷ []) ∙ ground arith

  abbrev follow :
      Result PlanResult → List (Result PlanResult) × Held W → List (Result PlanResult) × Held W
  follow r out = (r ∷ out.0, out.1)

  run_steps-Ran :
      (m : List ChatMessage → Exec W (Option ChatMessage)) (acc before rest : List PlanStep) (c : ℕ)
      (h : Held W) (state : PlanState)
      → p.model ≡ some m
      → all is_settled before ≡ true
      → all is_pending rest ≡ true
      → ((id : ℤ) → absent id acc ≡ absent id before)
      → distinct_from acc rest ≡ true
      → Ran h before rest (run_steps (length rest) state (holding h (before ++ rest) c))
  unfolding run_steps
  run_steps-Ran m acc before [] c h state given b q same d = (refl, (c, refl))
  run_steps-Ran m acc before (s ∷ rest) c h state given b q same d =
      (let taken =
          plan-held m h (before ++ s ∷ rest) c state given
          ∙ take_step-at h c before s rest b (ground arith) (ground arith) in
        let left =
          settle-at h (length before) before s rest b (sym (same s.step_id) ∙ ground arith) in
        let ih =
          run_steps-Ran m (s ∷ acc) (before ++ settled_step s ∷ []) rest (length before) h state
            given (all-append is_settled before (settled_step s ∷ []) ∙ ground arith) (ground arith)
            (λ id. sym (
              absent-snoc id before (settled_step s)
              ∙ ap (λ z. not (int_eq s.step_id id) && z) (sym (same id))))
            (ground arith) in
        let step : run_steps (suc (length rest)) state (holding h (before ++ s ∷ rest) c)
            ≡ follow (expected s) (
                run_steps (length rest) state
                  (holding h (before ++ settled_step s ∷ rest) (length before))) =
          ap (λ x. follow x.0 (run_steps (length rest) state (settle x.1))) taken
          ∙ ap (λ x. follow (expected s) (run_steps (length rest) state x)) left in
        let (results, (c', left_over)) =
          rw (append_assoc before (settled_step s ∷ []) rest) at ih in
        (
          ap (λ x. x.0) step ∙ ap (λ t. expected s ∷ t) results,
          (
            c',
            ap (λ x. x.1) step
                ∙ left_over
                ∙ ap (λ l. holding h l c')
                    (append_assoc before (settled_step s ∷ []) (map settled_step rest)),
          ),
        ))

  all_settled : (ss : List PlanStep) → all is_settled (map settled_step ss) ≡ true
  all_settled [] = refl
  all_settled (s ∷ ss) = all_settled ss

  take_step-end :
      (h : Held W) (c : ℕ) (ss : List PlanStep)
      → all is_settled ss ≡ true
      → (take_step p (holding h ss c)).0
        ≡ ok (record {
          action = record {
            kind = final_answer;
            tool_name = [];
            tool_input = none;
            answer = summarize_results (some (record { steps = ss; current_step = c }));
          };
          reasoning = [];
        })
  unfolding take_step
  take_step-end h c ss b =
      rw (take_step, (rw (append-nil ss) at (running_step-none ss [] b refl)), next_step-end ss b)
        refl

  -- With a model, a plan of pending steps whose identifiers all differ, and each step marked as done
  -- once its action has been executed, `Plan` returns the actions of the steps in the order of the
  -- plan, each once, and then a final answer that sums up their results.
  pub run_steps-in_order :
      (m : List ChatMessage → Exec W (Option ChatMessage)) (steps : List PlanStep) (h : Held W)
      (state : PlanState)
      → p.model ≡ some m
      → all is_pending steps ≡ true
      → distinct_ids steps ≡ true
      → ((run_steps (length steps) state (holding h steps 0)).0 ≡ map expected steps)
        × ((c : ℕ) × ((plan p state (run_steps (length steps) state (holding h steps 0)).1).0
              ≡ ok (record {
                action = record {
                  kind = final_answer;
                  tool_name = [];
                  tool_input = none;
                  answer =
                      summarize_results
                        (some (record { steps = map settled_step steps; current_step = c }));
                };
                reasoning = [];
              })))
  run_steps-in_order m steps h state given q d =
      let (results, (c, left)) =
        run_steps-Ran m [] [] steps 0 h state given refl q (λ id. refl) d in
      (
        results,
        (
          c,
          ap (λ x. (plan p state x).0) left
              ∙ ap (λ x. x.0) (plan-held m h (map settled_step steps) c state given)
              ∙ take_step-end h c (map settled_step steps) (all_settled steps),
        ),
      )
