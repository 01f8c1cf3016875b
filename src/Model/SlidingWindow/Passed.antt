-- ===== src/Model/SlidingWindow/Passed.antt =====
-- model/rate_limiter.go: the requests that have passed out of the sliding window.
use simple_agent_framework.Prelude.{
  ℕ, ◌+◌, ◌≤◌, ◌≡◌, refl, ap, sym, ◌∙◌, ltb, leb, if◌then◌else◌, Bool, true, List, [], ◌∷◌, ◌++◌,
  length, all, all-append, Bool-cases, inl, inr, arith,
}
use simple_agent_framework.Model.SlidingWindow.{is_recent}
use simple_agent_framework.Model.SlidingWindow.Entries.{drop_expired}
use simple_agent_framework.Model.SlidingWindow.Queue.{queue_allow}
use mathlib.Core.List.{append_assoc, append-nil}

-- How many of the times are recent.
abbrev pub recent_count : ℕ → ℕ → List ℕ → ℕ
recent_count size now [] = 0
recent_count size now (t ∷ ts) = (if is_recent size now t then 1 else 0) + recent_count size now ts

pub recent_count-le : (size now : ℕ) (l : List ℕ) → recent_count size now l ≤ length l
recent_count-le size now [] = omega arith
recent_count-le size now (t ∷ l) = (let ih = recent_count-le size now l in ground arith)

pub recent_count-append :
    (size now : ℕ) (a b : List ℕ)
    → recent_count size now (a ++ b) ≡ recent_count size now a + recent_count size now b
recent_count-append size now [] b = omega arith
recent_count-append size now (t ∷ a) b =
    (let ih = recent_count-append size now a b in omega (arith, ih))

-- All of the times have passed out of the window by `now`.
abbrev pub over : ℕ → ℕ → List ℕ → Bool
over size now = all (λ t. leb (t + size) now)

pub over-later :
    (size now after : ℕ) (l : List ℕ)
    → now ≤ after
    → over size now l ≡ true
    → over size after l ≡ true
over-later size now after [] h o = refl
over-later size now after (t ∷ l) h o = (let ih = over-later size now after l h in ground arith)

pub over-recent : (size now : ℕ) (l : List ℕ) → over size now l ≡ true → recent_count size now l ≡ 0
over-recent size now [] o = refl
over-recent size now (t ∷ l) o = (let ih = over-recent size now l in ground arith)

-- The queue falls into what has expired and what is kept.
record Split (size now : ℕ) (q kept : List ℕ) : Type 0 where
  pub gone : List ℕ
  pub parts : q ≡ gone ++ kept
  pub all_over : over size now gone ≡ true

drop_expired-Split : (size now : ℕ) (q : List ℕ) → Split size now q (drop_expired size now q)
drop_expired-Split size now [] = record { gone = []; parts = refl; all_over = refl }
drop_expired-Split size now (t ∷ q) = elim (Bool-cases (is_recent size now t)) [
  | inl recent ↦ rw recent (record { gone = []; parts = refl; all_over = refl })
  | inr old ↦
      (let s = drop_expired-Split size now q in
        rw old (record {
          gone = t ∷ s.gone;
          parts = ap (λ l. t ∷ l) s.parts;
          all_over = (let o = s.all_over in ground arith);
        }))
]

-- All of the times have been let in by `now`.
abbrev pub past : ℕ → List ℕ → Bool
past now = all (λ t. leb t now)

pub past-over :
    (size at now : ℕ) (l : List ℕ) → at + size ≤ now → past at l ≡ true → over size now l ≡ true
past-over size at now [] h p = refl
past-over size at now (t ∷ l) h p = (let ih = past-over size at now l h in ground arith)

pub past-later : (at now : ℕ) (l : List ℕ) → at ≤ now → past at l ≡ true → past now l ≡ true
past-later at now [] h p = refl
past-later at now (t ∷ l) h p = (let ih = past-later at now l h in ground arith)

pub over-drop_expired :
    (size now : ℕ) (q : List ℕ) → over size now q ≡ true → drop_expired size now q ≡ []
over-drop_expired size now [] o = refl
over-drop_expired size now (t ∷ q) o = (let ih = over-drop_expired size now q in ground arith)

all-append_right : (p : ℕ → Bool) (a b : List ℕ) → all p (a ++ b) ≡ true → all p b ≡ true
all-append_right p a b h = (let split = all-append p a b in ground arith)

-- The queue's part of a call.
pub record Queued (size now later : ℕ) (q : List ℕ) (out : Bool × List ℕ) : Type 0 where
  pub gone : List ℕ
  pub parts : q ++ (if out.0 then later ∷ [] else []) ≡ gone ++ out.1
  pub all_over : over size now gone ≡ true
  pub all_past : past later out.1 ≡ true

pub queue_allow-Queued :
    (size n now later : ℕ) (q : List ℕ)
    → now ≤ later
    → past now q ≡ true
    → Queued size now later q (queue_allow size n now later q)
queue_allow-Queued size n now later q h p =
    (let s = drop_expired-Split size now q in
      let kept = drop_expired size now q in
      let kept_past : past later kept ≡ true =
        past-later now later kept h
          (all-append_right (λ t. leb t now) s.gone kept (sym (ap (past now) s.parts) ∙ p)) in
      let snoc = all-append (λ t. leb t later) kept (later ∷ []) in
      elim (Bool-cases (ltb (length (drop_expired size now q)) n)) [
        | inl free ↦ rw free (record {
          gone = s.gone;
          parts =
              ap (λ l. l ++ later ∷ []) s.parts
              ∙ append_assoc s.gone (drop_expired size now q) (later ∷ []);
          all_over = s.all_over;
          all_past = ground arith;
        })
        | inr full ↦ rw full (record {
          gone = s.gone;
          parts = append-nil q ∙ s.parts;
          all_over = s.all_over;
          all_past = kept_past;
        })
      ])
