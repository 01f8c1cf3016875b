-- ===== src/Memory/Compressor/Compact.antt =====
-- memory/compressor.go, CompactStaleToolResults: the newest results stay, the others are cleared.
use simple_agent_framework.Prelude.{
  ℕ, ◌+◌, ◌≤◌, ◌<◌, ◌≡◌, refl, ap, ◌∙◌, sym, true, leb, leb→le, leb_false→lt, if◌then◌else◌, ◌⊎◌,
  List, [], ◌∷◌, ◌++◌, map, reverse, arith, Bool-cases, inl, inr,
}
use simple_agent_framework.Model.{ChatMessage}
use simple_agent_framework.Memory.Compressor.{
  estimate_tokens, is_live_result, clear_result, compact_loop, compact_stale_tool_results,
}
use mathlib.Core.List.{reverse-append, reverse-reverse, map-append}

-- The tokens of the tool results that are not cleared.
unfoldable pub live_tokens : List ChatMessage → ℕ
live_tokens [] = 0
live_tokens (m ∷ ms) = (if is_live_result m then estimate_tokens m.content else 0) + live_tokens ms

live_tokens-append : (a b : List ChatMessage) → live_tokens (a ++ b) ≡ live_tokens a + live_tokens b
unfolding live_tokens
live_tokens-append [] b = omega arith
live_tokens-append (x ∷ a) b = (let ih = live_tokens-append a b in ground arith)

live_tokens-reverse : (l : List ChatMessage) → live_tokens (reverse l) ≡ live_tokens l
unfolding live_tokens
live_tokens-reverse [] = refl
live_tokens-reverse (x ∷ l) =
    ap live_tokens (reverse-append (x ∷ []) l)
    ∙ live_tokens-append (reverse l) (x ∷ [])
    ∙ omega (arith, live_tokens-reverse l)

-- The oldest of the messages from which on they are cleared is a result that no longer fits.
abbrev pub Overflows : ℕ → ℕ → List ChatMessage → Type 0
Overflows budget running [] = Unit
Overflows budget running (m ∷ older) =
    (is_live_result m ≡ true) × (budget < running + estimate_tokens m.content)

-- The messages, newest first, are cut into those that stay and those that are cleared.
pub record Cut (budget running : ℕ) (messages result : List ChatMessage) : Type 0 where
  pub newer : List ChatMessage
  pub older : List ChatMessage
  pub parts : messages ≡ newer ++ older
  pub result_parts : result ≡ newer ++ map clear_result older
  pub fits : running + live_tokens newer ≤ budget
  pub full : Overflows budget (running + live_tokens newer) older

-- A message that stays goes in front.
Cut-cons :
    (budget running after : ℕ) (m : ChatMessage) {l r : List ChatMessage}
    → (if is_live_result m then running + estimate_tokens m.content else running) ≡ after
    → Cut budget after l r
    → Cut budget running (m ∷ l) (m ∷ r)
unfolding live_tokens
Cut-cons budget running after m e c = record {
  newer = m ∷ c.newer;
  older = c.older;
  parts = ap (λ t. m ∷ t) c.parts;
  result_parts = ap (λ t. m ∷ t) c.result_parts;
  fits = rw same c.fits;
  full = rw same c.full;
}
  where
    same : running + live_tokens (m ∷ c.newer) ≡ after + live_tokens c.newer
    same = ground arith

compact_loop-Cut :
    (budget running : ℕ) (l : List ChatMessage)
    → running ≤ budget
    → Cut budget running l (compact_loop budget running l)
unfolding compact_loop live_tokens
compact_loop-Cut budget running [] h = record {
  newer = [];
  older = [];
  parts = refl;
  result_parts = refl;
  fits = omega arith;
  full = tt;
}
compact_loop-Cut budget running (m ∷ l) h = elim (Bool-cases (is_live_result m)) [
  | inr dead ↦
      rw dead
        (Cut-cons budget running running m (rw dead refl) (compact_loop-Cut budget running l h))
  | inl live ↦ rw live (elim (Bool-cases (leb total budget)) [
    | inl fits ↦ rw fits (
        Cut-cons budget running total m (rw live refl)
          (compact_loop-Cut budget total l (leb→le total budget fits)))
    | inr over ↦ rw over (record {
      newer = [];
      older = m ∷ l;
      parts = refl;
      result_parts = refl;
      fits = omega arith;
      full = (live, (let lt = leb_false→lt total budget over in omega arith));
    })
  ])
]
  where
    total : ℕ
    total = running + estimate_tokens m.content

map-reverse :
    (f : ChatMessage → ChatMessage) (l : List ChatMessage) → map f (reverse l) ≡ reverse (map f l)
map-reverse f [] = refl
map-reverse f (x ∷ l) =
    ap (map f) (reverse-append (x ∷ []) l)
    ∙ map-append f (reverse l) (x ∷ [])
    ∙ ap (λ t. t ++ f x ∷ []) (map-reverse f l)
    ∙ sym (reverse-append (f x ∷ []) (map f l))

-- There is a point from which on all messages stay, while of those before it the tool results are
-- cleared; the results that stay are within the budget, and the point is as early as can be: the
-- message right before it is a result with which they would exceed the budget.
pub compact_stale_tool_results-newest :
    (messages : List ChatMessage) (budget : ℕ)
    → (older newer : List ChatMessage) × (messages ≡ older ++ newer)
      × (compact_stale_tool_results messages budget ≡ map clear_result older ++ newer)
      × (live_tokens newer ≤ budget)
      × ((older ≡ [])
          ⊎ ((before : List ChatMessage) × (m : ChatMessage) × (older ≡ before ++ m ∷ [])
              × (is_live_result m ≡ true)
              × (budget < live_tokens newer + estimate_tokens m.content)))
unfolding compact_stale_tool_results
compact_stale_tool_results-newest messages budget = (
  reverse c.older,
  reverse c.newer,
  sym (reverse-reverse messages) ∙ ap reverse c.parts ∙ reverse-append c.newer c.older,
  ap reverse c.result_parts
      ∙ reverse-append c.newer (map clear_result c.older)
      ∙ ap (λ t. t ++ reverse c.newer) (sym (map-reverse clear_result c.older)),
  omega (arith, c.fits, live_tokens-reverse c.newer),
  last c.older c.full,
)
  where
    c : Cut budget 0 (reverse messages) (compact_loop budget 0 (reverse messages))
    c = compact_loop-Cut budget 0 (reverse messages) (omega arith)

    last :
        (older : List ChatMessage)
        → Overflows budget (0 + live_tokens c.newer) older
        → (reverse older ≡ [])
          ⊎ ((before : List ChatMessage) × (m : ChatMessage) × (reverse older ≡ before ++ m ∷ [])
              × (is_live_result m ≡ true)
              × (budget < live_tokens (reverse c.newer) + estimate_tokens m.content))
    last [] h = inl refl
    last (m ∷ older) h = inr (
      reverse older,
      m,
      reverse-append (m ∷ []) older,
      h.0,
      (let lt = h.1 in omega (arith, live_tokens-reverse c.newer)),
    )
