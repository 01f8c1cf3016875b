-- ===== src/Evaluator/Composite/Strongest.antt =====
-- evaluator/composite.go: how the decisions of the evaluators become one.
use mathlib.Core.List.{append_assoc, append-nil}
use simple_agent_framework.Prelude.{
  ◌≡◌, refl, ap, ap₂, sym, ◌∙◌, inl, inr, ltb, Bool, true, false, ◌||◌, List, [], ◌∷◌, ◌++◌, map,
  if◌then◌else◌, Bool-cases, arith,
}
use simple_agent_framework.Prelude.Text.{Text, codes, is_empty, join}
use simple_agent_framework.Errors.{Exec, Result, ok, err}
use simple_agent_framework.Evaluator.{Decision, EvalState, EvalResult, Evaluator}
use simple_agent_framework.Evaluator.Composite.{
  decision_priority, with_feedback, gather, evaluate_composite,
}

abbrev behind : EvalResult → Result (List EvalResult) → Result (List EvalResult)
behind r (ok rs) = ok (r ∷ rs)
behind r (err e) = err e

-- The answers of all evaluators, in order; the first error ends it.
unfoldable pub ask_all : {W : Type 0} → List (Evaluator W) → EvalState → Exec W (List EvalResult)
ask_all [] state w = (ok [], w)
ask_all (ev ∷ evs) state w =
    let (answer, w') = ev state w in
    elim answer [
      | err e ↦ (err e, w')
      | ok res ↦ (let (rest, w'') = ask_all evs state w' in (behind res rest, w''))
    ]

-- The feedbacks that are not empty.
abbrev pub feedbacks : List EvalResult → List Text
feedbacks [] = []
feedbacks (r ∷ rs) =
    let rest = feedbacks rs in if is_empty r.feedback then rest else r.feedback ∷ rest

abbrev is_complete : Decision → Bool
is_complete Decision.complete = true
is_complete _ = false

abbrev is_escalate : Decision → Bool
is_escalate Decision.escalate = true
is_escalate _ = false

abbrev is_retry : Decision → Bool
is_retry Decision.retry = true
is_retry _ = false

abbrev is_replan : Decision → Bool
is_replan Decision.replan = true
is_replan _ = false

abbrev any_of : (Decision → Bool) → List Decision → Bool
any_of p [] = false
any_of p (d ∷ ds) = p d || any_of p ds

-- What wins: to complete, wherever one decides that; else to escalate; else to retry; else to plan
-- again; and to continue where nobody decides any of these.
abbrev pub precedence : List Decision → Decision
precedence ds =
    if any_of is_complete ds
    then Decision.complete
    else if any_of is_escalate ds
    then Decision.escalate
    else if any_of is_retry ds
    then Decision.retry
    else if any_of is_replan ds
    then Decision.replan
    else Decision.continue

-- The one answer that is made of all.
abbrev pub verdict : {W : Type 0} → Result (List EvalResult) × W → Result EvalResult × W
verdict (err e, w) = (err e, w)
verdict (ok rs, w) = (
  ok (record {
    decision = precedence (map (λ r. r.decision) rs);
    feedback = join (codes "\n") (feedbacks rs);
  }),
  w,
)

-- The better of the decision so far and another, as the loop takes it.
abbrev stronger : Decision → Decision → Decision
stronger best d = if ltb (decision_priority best) (decision_priority d) then d else best

-- The decision so far is one of those that are named.
abbrev IsNamed : Decision → Type 0
IsNamed d = precedence (d ∷ []) ≡ d

stronger-IsNamed : (best d : Decision) → IsNamed best → IsNamed (stronger best d)
stronger-IsNamed best (Decision.unknown n) h = ground (arith, h)
stronger-IsNamed best Decision.continue h = ground (arith, h)
stronger-IsNamed best Decision.complete h = ground arith
stronger-IsNamed best Decision.escalate h = ground arith
stronger-IsNamed best Decision.retry h = ground arith
stronger-IsNamed best Decision.replan h = ground arith

precedence-stronger :
    (best d : Decision) (ds : List Decision)
    → precedence (best ∷ d ∷ ds) ≡ precedence (stronger best d ∷ ds)
precedence-stronger Decision.complete Decision.complete ds = refl
precedence-stronger Decision.complete Decision.escalate ds = refl
precedence-stronger Decision.complete Decision.retry ds = refl
precedence-stronger Decision.complete Decision.replan ds = refl
precedence-stronger Decision.complete Decision.continue ds = refl
precedence-stronger Decision.complete (Decision.unknown k) ds = refl
precedence-stronger Decision.escalate Decision.complete ds = refl
precedence-stronger Decision.escalate Decision.escalate ds = refl
precedence-stronger Decision.escalate Decision.retry ds = refl
precedence-stronger Decision.escalate Decision.replan ds = refl
precedence-stronger Decision.escalate Decision.continue ds = refl
precedence-stronger Decision.escalate (Decision.unknown k) ds = refl
precedence-stronger Decision.retry Decision.complete ds = refl
precedence-stronger Decision.retry Decision.escalate ds = refl
precedence-stronger Decision.retry Decision.retry ds = refl
precedence-stronger Decision.retry Decision.replan ds = refl
precedence-stronger Decision.retry Decision.continue ds = refl
precedence-stronger Decision.retry (Decision.unknown k) ds = refl
precedence-stronger Decision.replan Decision.complete ds = refl
precedence-stronger Decision.replan Decision.escalate ds = refl
precedence-stronger Decision.replan Decision.retry ds = refl
precedence-stronger Decision.replan Decision.replan ds = refl
precedence-stronger Decision.replan Decision.continue ds = refl
precedence-stronger Decision.replan (Decision.unknown k) ds = refl
precedence-stronger Decision.continue Decision.complete ds = refl
precedence-stronger Decision.continue Decision.escalate ds = refl
precedence-stronger Decision.continue Decision.retry ds = refl
precedence-stronger Decision.continue Decision.replan ds = refl
precedence-stronger Decision.continue Decision.continue ds = refl
precedence-stronger Decision.continue (Decision.unknown k) ds = refl
precedence-stronger (Decision.unknown n) Decision.complete ds = refl
precedence-stronger (Decision.unknown n) Decision.escalate ds = refl
precedence-stronger (Decision.unknown n) Decision.retry ds = refl
precedence-stronger (Decision.unknown n) Decision.replan ds = refl
precedence-stronger (Decision.unknown n) Decision.continue ds = refl
precedence-stronger (Decision.unknown n) (Decision.unknown k) ds = refl

-- The verdict, of a loop that has some feedbacks and a decision already.
abbrev verdict_from :
    {W : Type 0} → List Text → Decision → Result (List EvalResult) × W → Result EvalResult × W
verdict_from parts best (err e, w) = (err e, w)
verdict_from parts best (ok rs, w) = (
  ok (record {
    decision = precedence (best ∷ map (λ r. r.decision) rs);
    feedback = join (codes "\n") (parts ++ feedbacks rs);
  }),
  w,
)

with_feedback-append :
    (parts : List Text) (res : EvalResult) (rs : List EvalResult)
    → with_feedback parts res.feedback ++ feedbacks rs ≡ parts ++ feedbacks (res ∷ rs)
with_feedback-append parts res rs = elim (Bool-cases (is_empty res.feedback)) [
  | inl silent ↦ rw silent refl
  | inr speaks ↦ rw speaks (append_assoc parts (res.feedback ∷ []) (feedbacks rs))
]

judgement : Decision → List Text → EvalResult
judgement d parts = record { decision = d; feedback = join (codes "\n") parts }

-- One answer more, before the others.
verdict-behind :
    {W : Type 0} (res : EvalResult) (parts : List Text) (best : Decision)
    (q : Result (List EvalResult)) (w : W)
    → verdict_from (with_feedback parts res.feedback) (stronger best res.decision) (q, w)
      ≡ verdict_from parts best (behind res q, w)
unfolding judgement
verdict-behind res parts best (err e) w = refl
verdict-behind res parts best (ok rs) w =
    ap₂ (λ d l. (ok (judgement d l), w))
      (sym (precedence-stronger best res.decision (map (λ r. r.decision) rs)))
      (with_feedback-append parts res rs)

priority-stronger :
    (best d : Decision)
    → (if ltb (decision_priority best) (decision_priority d)
        then decision_priority d
        else decision_priority best)
      ≡ decision_priority (stronger best d)
priority-stronger best d = elim (Bool-cases (ltb (decision_priority best) (decision_priority d))) [
  | inl up ↦ rw up refl
  | inr kept ↦ rw kept refl
]

gather-verdict :
    {W : Type 0} (evs : List (Evaluator W)) (state : EvalState) (parts : List Text)
    (best : Decision) (w : W)
    → IsNamed best
    → gather evs state parts best (decision_priority best) w
      ≡ verdict_from parts best (ask_all evs state w)
unfolding gather ask_all judgement
gather-verdict [] state parts best w named =
    ap₂ (λ d l. (ok (judgement d l), w)) (sym named) (sym (append-nil parts))
gather-verdict {W} (ev ∷ evs) state parts best w named =
    by_answer (ev state w).0 (ev state w).1 (λ parts' best'. gather-verdict evs state parts' best')
  where
    by_answer :
        (a : Result EvalResult) (w' : W)
        → ((parts' : List Text) (best' : Decision) (v : W)
            → IsNamed best'
            → gather evs state parts' best' (decision_priority best') v
              ≡ verdict_from parts' best' (ask_all evs state v))
        → ◌≡◌ {A = Result EvalResult × W}
            (elim a [
              | err e ↦ (err e, w')
              | ok res ↦
                  (let p = decision_priority res.decision in
                    gather evs state
                      (with_feedback parts res.feedback)
                      (if ltb (decision_priority best) p then res.decision else best)
                      (if ltb (decision_priority best) p then p else decision_priority best)
                      w')
            ])
            (verdict_from parts best (elim a [
              | err e ↦ (err e, w')
              | ok res ↦ (let (rest, w'') = ask_all evs state w' in (behind res rest, w''))
            ]))
    by_answer (err e) w' ih = refl
    by_answer (ok res) w' ih =
        ap
          (λ p.
            gather evs state (with_feedback parts res.feedback) (stronger best res.decision) p w')
          (priority-stronger best res.decision)
        ∙ ih (with_feedback parts res.feedback) (stronger best res.decision) w'
            (stronger-IsNamed best res.decision named)
        ∙ verdict-behind res parts best (ask_all evs state w').0 (ask_all evs state w').1

-- The composite asks all evaluators in order, and the first error of one is its error. Else its
-- feedback joins their feedbacks that are not empty, in order. It decides to complete where any of
-- them does, whatever the others decide; where none does, to escalate where any does; then to retry;
-- then to plan again; and to continue where nobody decides any of these.
pub evaluate_composite-verdict :
    {W : Type 0} (evs : List (Evaluator W)) (state : EvalState) (w : W)
    → evaluate_composite evs state w ≡ verdict (ask_all evs state w)
unfolding evaluate_composite ask_all
evaluate_composite-verdict {W} evs state w =
    gather-verdict evs state [] Decision.continue w refl
    ∙ same (ask_all evs state w).0 (ask_all evs state w).1
  where
    same :
        (q : Result (List EvalResult)) (v : W)
        → verdict_from [] Decision.continue (q, v) ≡ verdict (q, v)
    same (ok rs) v = refl
    same (err e) v = refl
