-- ===== src/Agent/LoopDetector/Run.antt =====
-- When agent/loop_detector.go warns and terminates, by the run of equal signatures at the end.
use simple_agent_framework.Prelude.{
  ℕ, suc, zero, ◌-◌, ◌≤◌, ◌<◌, ◌≡◌, ◌↔◌, refl, sym, ap, ◌∙◌, ltb, leb, if◌then◌else◌, Bool, true,
  List, [], ◌∷◌, ◌++◌, reverse, length, take, drop, drop-append_le, reverse-drop, all, all-append,
  all-reverse, length-append, length-reverse, arith, Bool-cases, inl, inr,
}
use simple_agent_framework.Prelude.Text.{text_eq_iff}
use simple_agent_framework.Agent.LoopDetector.{
  LoopDetector, ToolCallSig, normal, warning, terminate, sig_eq, uniform, record_sig,
}
use mathlib.Core.List.{reverse-append}

pub sig_eq_iff : (a b : ToolCallSig) → (sig_eq a b ≡ true) ↔ (a ≡ b)
unfolding sig_eq
sig_eq_iff a b =
    ground (arith, text_eq_iff a.tool_name b.tool_name, text_eq_iff a.param_hash b.param_hash)

pub sig_eq_refl : (a : ToolCallSig) → sig_eq a a ≡ true
sig_eq_refl a = (sig_eq_iff a a).1 refl

-- How many signatures at the head are `sig`.
head_run : ToolCallSig → List ToolCallSig → ℕ
head_run sig [] = 0
head_run sig (x ∷ xs) = if sig_eq x sig then suc (head_run sig xs) else 0

-- How many signatures at the end of a history, without a gap, are `sig`.
unfoldable pub tail_run : ToolCallSig → List ToolCallSig → ℕ
unfolding head_run
tail_run sig l = head_run sig (reverse l)

pub tail_run-snoc :
    (sig x : ToolCallSig) (l : List ToolCallSig)
    → tail_run sig (l ++ x ∷ []) ≡ (if sig_eq x sig then suc (tail_run sig l) else 0)
unfolding tail_run
tail_run-snoc sig x l = rw (reverse-append l (x ∷ []))

head_run-le : (sig : ToolCallSig) (l : List ToolCallSig) → head_run sig l ≤ length l
unfolding head_run
head_run-le sig [] = omega arith
head_run-le sig (x ∷ xs) = ground (arith, head_run-le sig xs)

tail_run-le : (sig : ToolCallSig) (l : List ToolCallSig) → tail_run sig l ≤ length l
unfolding tail_run
tail_run-le sig l = omega (arith, head_run-le sig (reverse l), length-reverse {0} l)

-- The first `n` are all `sig` exactly when the run at the head is as long.
all-take :
    (sig : ToolCallSig) (n : ℕ) (l : List ToolCallSig)
    → n ≤ length l
    → all (λ x. sig_eq x sig) (take n l) ≡ leb n (head_run sig l)
unfolding head_run
all-take sig zero l h = ground arith
all-take sig (suc n) [] h = absurd (omega arith)
all-take sig (suc n) (x ∷ xs) h = ground (arith, all-take sig n xs)

-- A list that ends in `sig` is uniform exactly when all of it is `sig`.
uniform-snoc :
    (l : List ToolCallSig) (sig : ToolCallSig)
    → uniform (l ++ sig ∷ []) ≡ all (λ x. sig_eq x sig) (l ++ sig ∷ [])
unfolding uniform
uniform-snoc [] sig = ground (arith, sig_eq_refl sig)
uniform-snoc (x ∷ l) sig = elim (Bool-cases (sig_eq x sig)) [
  | inl same ↦ let e : x ≡ sig = (sig_eq_iff x sig).0 same in rw e (rw (sig_eq_refl sig))
  | inr differs ↦
      rw (differs, all-append (λ y. sig_eq y x) l (sig ∷ []))
        (ground (arith, sig_eq_iff sig x, sig_eq_refl x))
]

-- The window of the last `n` signatures, the newest one `sig`, is uniform exactly when the run of
-- `sig` at the end is as long.
uniform-window :
    (n : ℕ) (l : List ToolCallSig) (sig : ToolCallSig)
    → 0 < n
    → n ≤ length (l ++ sig ∷ [])
    → uniform (drop (length (l ++ sig ∷ []) - n) (l ++ sig ∷ [])) ≡ leb n (suc (tail_run sig l))
uniform-window n l sig pos fits =
    ap uniform split
    ∙ uniform-snoc (drop k l) sig
    ∙ ap (all same) (sym split)
    ∙ sym (all-reverse same (drop k h))
    ∙ ap (all same) (reverse-drop k h (omega arith))
    ∙ ap (λ m. all same (take m (reverse h))) (let e : length h - k ≡ n = omega arith in e)
    ∙ all-take sig n (reverse h) (omega (arith, length-reverse {0} h))
    ∙ ap (leb n) (unfold tail_run in tail_run-snoc sig sig l ∙ step)
  where
    h : List ToolCallSig
    h = l ++ sig ∷ []

    k : ℕ
    k = length h - n

    same : ToolCallSig → Bool
    same x = sig_eq x sig

    split : drop k h ≡ drop k l ++ sig ∷ []
    split = drop-append_le k l (sig ∷ []) (omega (arith, length-append {0} l (sig ∷ [])))

    step : (if sig_eq sig sig then suc (tail_run sig l) else 0) ≡ suc (tail_run sig l)
    step = rw (sig_eq_refl sig)

-- What `Record` answers, told by the length of the run of equal calls that ends in the
-- new one: below the threshold the call is normal; from there on it is warned about, and once a
-- warning stands it is terminated. For every detector with a positive threshold.
pub record_sig-run :
    (d : LoopDetector) (sig : ToolCallSig)
    → 0 < d.threshold
    → (record_sig d sig).0 ≡ (
        if ltb (suc (tail_run sig d.history)) d.threshold
        then normal
        else if d.warned
        then terminate
        else warning)
unfolding record_sig
record_sig-run d sig pos = ground (
  arith,
  uniform-window d.threshold d.history sig pos,
  tail_run-le sig d.history,
  length-append {0} d.history (sig ∷ []),
)

-- The detector after `Record`: the call is in the history, and a warning stands exactly when the
-- run of equal calls has reached the threshold, or the history is still shorter than the threshold.
unfoldable pub recorded : LoopDetector → ToolCallSig → LoopDetector
recorded d sig = record d {
  history = d.history ++ sig ∷ [];
  warned =
      if ltb (length (d.history ++ sig ∷ [])) d.threshold
      then d.warned
      else leb d.threshold (suc (tail_run sig d.history));
}

pub record_sig-recorded :
    (d : LoopDetector) (sig : ToolCallSig) → 0 < d.threshold → (record_sig d sig).1 ≡ recorded d sig
unfolding record_sig recorded
record_sig-recorded d sig pos = ground (
  arith,
  uniform-window d.threshold d.history sig pos,
  tail_run-le sig d.history,
  length-append {0} d.history (sig ∷ []),
)

head_run_unique :
    (a b : ToolCallSig) (l : List ToolCallSig) → 0 < head_run a l → 0 < head_run b l → a ≡ b
unfolding head_run
head_run_unique a b [] ha hb = absurd (omega arith)
head_run_unique a b (x ∷ xs) ha hb = ground (arith, sig_eq_iff x a, sig_eq_iff x b)

pub tail_run_unique :
    (a b : ToolCallSig) (l : List ToolCallSig) → 0 < tail_run a l → 0 < tail_run b l → a ≡ b
unfolding tail_run
tail_run_unique a b l = head_run_unique a b (reverse l)

pub tail_run-le-length : (sig : ToolCallSig) (l : List ToolCallSig) → tail_run sig l ≤ length l
tail_run-le-length = tail_run-le

-- `Record` keeps the threshold.
pub threshold-record_sig :
    (d : LoopDetector) (sig : ToolCallSig)
    → 0 < d.threshold
    → (record_sig d sig).1.threshold ≡ d.threshold
unfolding recorded
threshold-record_sig d sig pos = ap (λ e. e.threshold) (record_sig-recorded d sig pos)
