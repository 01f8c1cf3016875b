-- ===== src/Memory/Buffer/Window.antt =====
-- What memory/buffer.go keeps, over any store that is a sequence.
use simple_agent_framework.Prelude.{
  ℕ, suc, zero, ◌-◌, ◌+◌, ◌≤◌, ◌<◌, max, ◌≡◌, refl, ap, sym, ◌∙◌, leb, ◌==◌, ==_iff, leb→le,
  leb_false→lt, List, [], ◌∷◌, ◌++◌, none, true, length, take, drop, drop_of_length-le, drop-drop,
  take-append-drop, length-append, length-drop, length-take, arith, Bool-cases, inl, inr,
}
use simple_agent_framework.Prelude.Int.{pos, is_positive, pos_part}
use simple_agent_framework.Errors.{ok, Result}
use simple_agent_framework.Model.{ChatMessage}
use simple_agent_framework.Memory.Store.{IsSequence}
use simple_agent_framework.Memory.Buffer.{
  BufferMemory, leading_system, add, limit, trim_preserving_system,
}
use mathlib.Core.List.{append-nil}
use mathlib.Core.Path.{ap₂}

pub leading_system-le : (l : List ChatMessage) → leading_system l ≤ length l
unfolding leading_system
leading_system-le [] = omega arith
leading_system-le (x ∷ xs) = ground (arith, leading_system-le xs)

-- The leading system messages, and what comes behind them.
abbrev pub head : List ChatMessage → List ChatMessage
head l = take (leading_system l) l

abbrev pub body : List ChatMessage → List ChatMessage
body l = drop (leading_system l) l

-- The window of `n` messages: where there are more, the oldest messages behind the leading system
-- messages go.
unfoldable pub window : ℕ → List ChatMessage → List ChatMessage
window n l = head l ++ drop (length l - n) (body l)

window_of_excess :
    (n k : ℕ) (l : List ChatMessage) → length l ≡ n + k → window k l ≡ head l ++ drop n (body l)
unfolding window
window_of_excess n k l h = ap (λ e. head l ++ drop e (body l)) (omega arith)

-- A list that fits is its own window.
window_of_length-le : (k : ℕ) (l : List ChatMessage) → length l ≤ k → window k l ≡ l
unfolding window
window_of_length-le k l h =
    ap (λ e. head l ++ drop e (body l)) (let z : length l - k ≡ 0 = omega arith in z)
    ∙ take-append-drop (leading_system l) l

window_bare :
    (n k : ℕ) (l : List ChatMessage)
    → length l ≡ n + k
    → leading_system l ≡ 0
    → window k l ≡ drop n l
window_bare n k l h z = window_of_excess n k l h ∙ ap (λ i. take i l ++ drop n (drop i l)) z

window_all :
    (n k : ℕ) (l : List ChatMessage)
    → length l ≡ n + k
    → length l - leading_system l ≤ n
    → window k l ≡ head l
window_all n k l h le =
    window_of_excess n k l h
    ∙ ap (λ t. head l ++ t)
        (drop_of_length-le n (body l) (omega (arith, length-drop {0} (leading_system l) l)))
    ∙ append-nil (head l)

window_rest :
    (n k : ℕ) (l : List ChatMessage)
    → length l ≡ n + k
    → window k l ≡ head l ++ drop (leading_system l + n) l
window_rest n k l h =
    window_of_excess n k l h ∙ ap (λ t. head l ++ t) (sym (drop-drop (leading_system l) n l))

-- The window of `n` messages has at most `n` of them, or just the leading system messages where
-- these alone are more.
pub window-bounded : (n : ℕ) (l : List ChatMessage) → length (window n l) ≤ max n (leading_system l)
unfolding window
window-bounded n l = omega (
  arith,
  length-append (head l) (drop (length l - n) (body l)),
  length-take {0} (leading_system l) l,
  length-drop {0} (length l - n) (body l),
  length-drop {0} (leading_system l) l,
  leading_system-le l,
)

module _ {S : Type 0} {view : S → List ChatMessage} (m : BufferMemory S)
    (sequence : IsSequence m.store view) where
  -- The call returned no error and left the messages `l`.
  abbrev Leaves : Result (Unit {0}) × S → List ChatMessage → Type 0
  Leaves r l = (r.0 ≡ ok tt) × (view r.1 ≡ l)

  trim-window :
      (n : ℕ) (s : S)
      → length (view s) ≡ n + pos_part m.max_size
      → Leaves (trim_preserving_system m none n s) (window (pos_part m.max_size) (view s))
  unfolding trim_preserving_system
  trim-window zero s h = (refl, sym (window_of_length-le _ (view s) (omega arith)))
  trim-window (suc n) s h = rw (sequence.list_ok s) (elim (Bool-cases (leading_system l == 0)) [
    | inl bare ↦
        rw bare
          (via (sequence.trim_head_ok (suc n) s) (window_bare (suc n) k l h ((==_iff _ 0).0 bare)))
    | inr led ↦ rw led (elim (Bool-cases (leb (length l - leading_system l) (suc n))) [
      | inl all ↦ rw all (via (sequence.replace_ok _ s) (window_all (suc n) k l h (leb→le _ _ all)))
      | inr rest ↦ rw rest (via (sequence.replace_ok _ s) (window_rest (suc n) k l h))
    ])
  ])
    where
      l : List ChatMessage
      l = view s

      k : ℕ
      k = pos_part m.max_size

      via : {r : Result (Unit {0}) × S} {a b : List ChatMessage} → Leaves r a → b ≡ a → Leaves r b
      via t e = (t.0, t.1 ∙ sym e)

  limit-window : (s : S) → Leaves (limit m none s) (window (pos_part m.max_size) (view s))
  unfolding limit
  limit-window s =
      rw (sequence.len_ok s) (elim (Bool-cases (leb (length (view s)) (pos_part m.max_size))) [
        | inl fits ↦ rw fits (refl, sym (window_of_length-le _ (view s) (leb→le _ _ fits)))
        | inr over ↦ rw over (
            trim-window (length (view s) - pos_part m.max_size) s (
              let lt : pos_part m.max_size < length (view s) = leb_false→lt _ _ over in
              omega arith))
      ])

  -- Over a store that is a sequence, with a live context and a positive `maxSize`, `Add` of some
  -- messages returns no error and leaves the window of the old messages followed by the new ones: at
  -- most `maxSize` messages, or just the leading system messages where these are more.
  pub add-window :
      (n : ℕ) (x : ChatMessage) (xs : List ChatMessage) (s : S)
      → m.max_size ≡ pos (suc n)
      → ((add m none (x ∷ xs) s).0 ≡ ok tt)
        × (view (add m none (x ∷ xs) s).1 ≡ window (suc n) (view s ++ x ∷ xs))
        × (length (view (add m none (x ∷ xs) s).1)
            ≤ max (suc n) (leading_system (view s ++ x ∷ xs)))
  unfolding add limit
  add-window n x xs s e =
      let (appended, now) = sequence.append_ok (x ∷ xs) s in
      let (done, left) = limit-window (m.store.append none (x ∷ xs) s).1 in
      let positive : is_positive m.max_size ≡ true = ap is_positive e in
      let kept = left ∙ ap₂ window (ap pos_part e) now in
      rw (appended, positive) (done, kept, rw kept (window-bounded (suc n) (view s ++ x ∷ xs)))
