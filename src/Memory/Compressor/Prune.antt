-- ===== src/Memory/Compressor/Prune.antt =====
-- memory/compressor.go, PruneConsecutiveFailures: the loop ends by itself, and merges what it can.
use simple_agent_framework.Prelude.{
  ℕ, zero, suc, ◌≤◌, ◌<◌, ◌≡◌, refl, ap, ◌∙◌, Bool, true, false, ltb, ltb→lt, not, ◌&&◌, List, [],
  ◌∷◌, length, arith, Bool-cases, ◌⊎◌, inl, inr,
}
use simple_agent_framework.Prelude.Text.{Text, text_eq, text_eq_refl, text_eq_iff}
use simple_agent_framework.Model.{ChatMessage, is_tool}
use simple_agent_framework.Memory.Compressor.{
  skip_run, prune_loop, prune_consecutive_failures, is_failed_pair, is_assistant_with_tool_calls,
}

-- The messages behind a run are some of those that follow its first pair.
skip_run-length :
    (name : Text) (a t : ChatMessage) (rest : List ChatMessage)
    → length (skip_run name a t rest).2 ≤ length rest
unfolding skip_run
skip_run-length name a t [] = omega arith
skip_run-length name a t (b ∷ []) = omega arith
skip_run-length name a t (b ∷ u ∷ rest) =
    (let shorter = skip_run-length name b u rest in ground arith)

-- Any two amounts of fuel that are at least the number of messages give the same.
prune_loop_enough :
    (n m : ℕ) (l : List ChatMessage) → length l ≤ n → length l ≤ m → prune_loop n l ≡ prune_loop m l
unfolding prune_loop
prune_loop_enough zero zero l h k = refl
prune_loop_enough zero (suc m) [] h k = refl
prune_loop_enough zero (suc m) (a ∷ l) h k = absurd (omega (arith, h))
prune_loop_enough (suc n) zero [] h k = refl
prune_loop_enough (suc n) zero (a ∷ l) h k = absurd (omega (arith, k))
prune_loop_enough (suc n) (suc m) [] h k = refl
prune_loop_enough (suc n) (suc m) (a ∷ []) h k = refl
prune_loop_enough (suc n) (suc m) (a ∷ t ∷ rest) h k =
    (let shorter = skip_run-length t.name a t rest in
      rw
        (
          prune_loop_enough n m (skip_run t.name a t rest).2 (omega arith) (omega arith),
          prune_loop_enough n m (t ∷ rest) (omega arith) (omega arith),
        )
        refl)

-- The list does not start with two failed pairs of one tool.
abbrev no_repeat_head : List ChatMessage → Bool
no_repeat_head (a ∷ t ∷ b ∷ u ∷ l) =
    not (is_failed_pair a t && is_failed_pair b u && text_eq u.name t.name)
no_repeat_head _ = true

-- Nowhere in the list is a failed pair followed by another of the same tool.
abbrev pub no_repeat : List ChatMessage → Bool
no_repeat [] = true
no_repeat (a ∷ l) = no_repeat_head (a ∷ l) && no_repeat l

-- The list does not start with a failed pair of the tool.
abbrev free_of : Text → List ChatMessage → Bool
free_of name (b ∷ u ∷ l) = not (is_failed_pair b u && text_eq u.name name)
free_of name _ = true

skip_run-free :
    (name : Text) (a t : ChatMessage) (rest : List ChatMessage)
    → free_of name (skip_run name a t rest).2 ≡ true
unfolding skip_run
skip_run-free name a t [] = refl
skip_run-free name a t (b ∷ []) = refl
skip_run-free name a t (b ∷ u ∷ rest) = (let ih = skip_run-free name b u rest in ground arith)

-- The pair that stays is a failed pair of the tool.
skip_run-pair :
    (name : Text) (a t : ChatMessage) (rest : List ChatMessage)
    → is_failed_pair a t ≡ true
    → text_eq t.name name ≡ true
    → (is_failed_pair (skip_run name a t rest).0 (skip_run name a t rest).1 ≡ true)
      × (text_eq (skip_run name a t rest).1.name name ≡ true)
unfolding skip_run
skip_run-pair name a t [] f e = (f, e)
skip_run-pair name a t (b ∷ []) f e = (f, e)
skip_run-pair name a t (b ∷ u ∷ rest) f e = (let ih = skip_run-pair name b u rest in ground arith)

-- The first of a failed pair is no tool message, and the second is one, so neither begins nor ends
-- another pair.
failed_roles :
    (x y : ChatMessage)
    → is_failed_pair x y ≡ true
    → (is_tool x.role ≡ false) × (is_tool y.role ≡ true)
unfolding is_failed_pair is_assistant_with_tool_calls
failed_roles x y h = ground arith

tool_first : (x y : ChatMessage) → is_tool x.role ≡ true → is_failed_pair x y ≡ false
unfolding is_failed_pair is_assistant_with_tool_calls
tool_first x y h = ground arith

not_tool_second : (x y : ChatMessage) → is_tool y.role ≡ false → is_failed_pair x y ≡ false
unfolding is_failed_pair
not_tool_second x y h = ground arith

-- What the loop leaves starts with the first message, or with one that is no tool message.
abbrev Starts : ChatMessage → List ChatMessage → Type 0
Starts a [] = ⊥
Starts a (x ∷ l) = (x ≡ a) ⊎ (is_tool x.role ≡ false)

abbrev HeadOk : List ChatMessage → List ChatMessage → Type 0
HeadOk [] r = r ≡ []
HeadOk (a ∷ l) r = Starts a r

prune_loop-head : (n : ℕ) (l : List ChatMessage) → HeadOk l (prune_loop n l)
unfolding prune_loop
prune_loop-head zero [] = refl
prune_loop-head zero (a ∷ l) = inl refl
prune_loop-head (suc n) [] = refl
prune_loop-head (suc n) (a ∷ []) = inl refl
prune_loop-head (suc n) (a ∷ t ∷ rest) = elim (Bool-cases (is_failed_pair a t)) [
  | inl failed ↦
      (let pair = skip_run-pair t.name a t rest failed (text_eq_refl t.name) in
        rw failed
          (inr (failed_roles (skip_run t.name a t rest).0 (skip_run t.name a t rest).1 pair.0).0))
  | inr fine ↦ rw fine (inl refl)
]

-- Behind a message that makes no failed pair with the next, what the loop leaves makes none either.
Starts-fine :
    (a t : ChatMessage) (r : List ChatMessage)
    → is_failed_pair a t ≡ false
    → Starts t r
    → (no_repeat_head (a ∷ r) ≡ true) × ((name : Text) → free_of name (a ∷ r) ≡ true)
Starts-fine a t [] fine s = absurd s
Starts-fine a t (x ∷ r) fine s = by_head r
  where
    none_failed : is_failed_pair a x ≡ false
    none_failed = elim s [
      | inl same ↦ ap (is_failed_pair a) same ∙ fine
      | inr no_tool ↦ not_tool_second a x no_tool
    ]

    by_head :
        (l : List ChatMessage)
        → (no_repeat_head (a ∷ x ∷ l) ≡ true) × ((name : Text) → free_of name (a ∷ x ∷ l) ≡ true)
    by_head [] = (refl, λ name. rw none_failed refl)
    by_head (b ∷ []) = (refl, λ name. rw none_failed refl)
    by_head (b ∷ u ∷ l) = (rw none_failed refl, λ name. rw none_failed refl)

prune_loop-free :
    (n : ℕ) (name : Text) (l : List ChatMessage)
    → free_of name l ≡ true
    → free_of name (prune_loop n l) ≡ true
unfolding prune_loop
prune_loop-free zero name l h = h
prune_loop-free (suc n) name [] h = refl
prune_loop-free (suc n) name (a ∷ []) h = refl
prune_loop-free (suc n) name (a ∷ t ∷ rest) h = elim (Bool-cases (is_failed_pair a t)) [
  | inl failed ↦
      (let pair = skip_run-pair t.name a t rest failed (text_eq_refl t.name) in
        let named : (skip_run t.name a t rest).1.name ≡ t.name = (text_eq_iff _ _).0 pair.1 in
        rw (failed, pair.0, named) (rw failed at h))
  | inr fine ↦
      rw fine
        ((Starts-fine a t (prune_loop n (t ∷ rest)) fine (prune_loop-head n (t ∷ rest))).1 name)
]

pair-no_repeat :
    (x y : ChatMessage) (r : List ChatMessage)
    → is_failed_pair x y ≡ true
    → free_of y.name r ≡ true
    → no_repeat r ≡ true
    → no_repeat (x ∷ y ∷ r) ≡ true
pair-no_repeat x y [] f h k = refl
pair-no_repeat x y (b ∷ []) f h k = refl
pair-no_repeat x y (b ∷ u ∷ r) f h k = by_head r k
  where
    quiet : is_failed_pair y b ≡ false
    quiet = tool_first y b (failed_roles x y f).1

    by_head :
        (l : List ChatMessage) → no_repeat (b ∷ u ∷ l) ≡ true → no_repeat (x ∷ y ∷ b ∷ u ∷ l) ≡ true
    by_head [] k' = rw (f, h) k'
    by_head (v ∷ l) k' = rw (f, h, quiet) k'

prune_loop-no_repeat :
    (n : ℕ) (l : List ChatMessage) → length l ≤ n → no_repeat (prune_loop n l) ≡ true
unfolding prune_loop
prune_loop-no_repeat zero [] h = refl
prune_loop-no_repeat zero (a ∷ l) h = absurd (omega (arith, h))
prune_loop-no_repeat (suc n) [] h = refl
prune_loop-no_repeat (suc n) (a ∷ []) h = refl
prune_loop-no_repeat (suc n) (a ∷ t ∷ rest) h = elim (Bool-cases (is_failed_pair a t)) [
  | inl failed ↦
      (let pair = skip_run-pair t.name a t rest failed (text_eq_refl t.name) in
        let named : (skip_run t.name a t rest).1.name ≡ t.name = (text_eq_iff _ _).0 pair.1 in
        let shorter = skip_run-length t.name a t rest in
        rw failed (
          pair-no_repeat _ _ _ pair.0
            (rw named (
              prune_loop-free n t.name (skip_run t.name a t rest).2
                (skip_run-free t.name a t rest)))
            (prune_loop-no_repeat n (skip_run t.name a t rest).2 (omega arith))))
  | inr fine ↦
      rw (fine, (Starts-fine a t (prune_loop n (t ∷ rest)) fine (prune_loop-head n (t ∷ rest))).0)
        (prune_loop-no_repeat n (t ∷ rest) (omega arith))
]

short_same :
    (l : List ChatMessage) (n : ℕ)
    → length l ≤ n
    → length l < 2
    → (no_repeat l ≡ true) × (l ≡ prune_loop n l)
unfolding prune_loop
short_same [] zero h k = (refl, refl)
short_same [] (suc n) h k = (refl, refl)
short_same (a ∷ []) zero h k = absurd (omega (arith, h))
short_same (a ∷ []) (suc n) h k = (refl, refl)
short_same (a ∷ b ∷ l) n h k = absurd (omega (arith, k))

-- In what PruneConsecutiveFailures leaves, no failed call of a tool is followed directly by another
-- failed call of the same tool; and any more fuel would leave the same.
pub prune_consecutive_failures-no_repeat :
    (l : List ChatMessage) (n : ℕ)
    → length l ≤ n
    → (no_repeat (prune_consecutive_failures l) ≡ true)
      × (prune_consecutive_failures l ≡ prune_loop n l)
unfolding prune_consecutive_failures
prune_consecutive_failures-no_repeat l n h = elim (Bool-cases (ltb (length l) 2)) [
  | inl short ↦ rw short (short_same l n h (ltb→lt (length l) 2 short))
  | inr long ↦ rw long (
    prune_loop-no_repeat (length l) l (omega arith),
    prune_loop_enough (length l) n l (omega arith) h,
  )
]
