-- ===== src/Metrics/Queue.antt =====
-- metrics/metrics.go: the counter is a queue of the recent samples that loses its oldest when full.
use simple_agent_framework.Prelude.{
  length-replicate, ℕ, ◌+◌, ◌-◌, ◌%◌, ◌≤◌, ◌<◌, ◌≡◌, refl, ap, ap₂, sym, ◌∙◌, ltb, if◌then◌else◌,
  List, [], ◌∷◌, ◌++◌, length, Bool-cases, inl, inr, arith,
}
use simple_agent_framework.Model.SlidingWindow.Entries.{entries, entries-shift}
use simple_agent_framework.Metrics.{
  SlidingWindowCounter, new_counter, expire_samples, cleanup_samples,
}
use simple_agent_framework.Metrics.Samples.{
  zip, samples, drop_old, Cleared, expire_samples-Cleared, expire_samples-none,
}
use native.Mathlib.Nat.{mod-lt}

-- Both buffers have the same room, some, and head and count stay inside it.
pub record IsValid (s : SlidingWindowCounter) : Type 0 where
  pub positive : 0 < length s.calls
  pub same : length s.tokens ≡ length s.calls
  pub head_in : s.head < length s.calls
  pub count_in : s.count ≤ length s.calls

-- The samples that count, oldest first: the time of each and its tokens.
abbrev pub view : SlidingWindowCounter → List (ℕ × ℕ)
view s = samples s.calls s.tokens s.head 0 s.count

pub new-IsValid : (size n : ℕ) → 0 < n → IsValid (new_counter size n)
unfolding new_counter
new-IsValid size n pos = record {
  positive = omega (arith, length-replicate {A = ℕ} n 0);
  same = refl;
  head_in = omega (arith, length-replicate {A = ℕ} n 0);
  count_in = omega arith;
}

-- The queue of at most `n`: the oldest makes room for a new one.
abbrev pub tail : List (ℕ × ℕ) → List (ℕ × ℕ)
tail [] = []
tail (x ∷ q) = q

abbrev pub push : ℕ → ℕ × ℕ → List (ℕ × ℕ) → List (ℕ × ℕ)
push n x q = if ltb (length q) n then q ++ x ∷ [] else tail q ++ x ∷ []

abbrev pub total : List (ℕ × ℕ) → ℕ
total [] = 0
total ((t, x) ∷ q) = x + total q

-- What `cleanup` leaves of a valid counter.
pub record Swept (now : ℕ) (s t : SlidingWindowCounter) : Type 0 where
  pub valid : IsValid t
  pub kept : view t ≡ drop_old s.window_size now (view s)
  pub same_room : length t.calls ≡ length s.calls
  pub same_size : t.window_size ≡ s.window_size

pub cleanup_samples-Swept :
    (now : ℕ) (s : SlidingWindowCounter) → IsValid s → Swept now s (cleanup_samples now s)
unfolding cleanup_samples
cleanup_samples-Swept now s v = elim (Bool-cases (ltb 0 out.2)) [
  | inl some_expired ↦ rw some_expired (record {
    valid = record {
      positive = omega (arith, c.same_calls, v.positive);
      same = c.same_tokens ∙ v.same ∙ sym c.same_calls;
      head_in =
          (let below = mod-lt (s.head + out.2) {m = length s.calls} v.positive in
            omega (arith, below, c.same_calls));
      count_in = omega (arith, v.count_in, c.same_calls);
    };
    kept =
        ap₂ zip (shifted out.0 c.same_calls) (shifted out.1 (c.same_tokens ∙ v.same)) ∙ sym c.left;
    same_room = c.same_calls;
    same_size = refl;
  })
  | inr none_expired ↦
      (let none_left : out.2 ≡ 0 = ground (arith, none_expired) in
        rw none_expired (record {
          valid = v;
          kept = sym (c.left ∙ unchanged none_left);
          same_room = refl;
          same_size = refl;
        }))
]
  where
    out : List ℕ × List ℕ × ℕ
    out = expire_samples s.window_size now s.head 0 s.count s.calls s.tokens

    c : Cleared s.window_size now s.head 0 s.count s.calls s.tokens out
    c =
        expire_samples-Cleared s.window_size now s.head 0 s.count s.calls s.tokens v.same v.head_in
          (omega (arith, v.count_in))

    shifted :
        (buf : List ℕ)
        → length buf ≡ length s.calls
        → entries buf ((s.head + out.2) % length s.calls) 0 (s.count - out.2)
          ≡ entries buf s.head (0 + out.2) (s.count - out.2)
    shifted buf e =
        ap (λ k. entries buf ((s.head + out.2) % k) 0 (s.count - out.2)) (sym e)
        ∙ entries-shift buf s.head out.2 0 (s.count - out.2)
        ∙ ap (λ i. entries buf s.head i (s.count - out.2))
            (let e : out.2 + 0 ≡ 0 + out.2 = omega arith in e)

    unchanged : out.2 ≡ 0 → samples out.0 out.1 s.head (0 + out.2) (s.count - out.2) ≡ view s
    unchanged e =
        ap (λ o. samples o.0 o.1 s.head (0 + o.2) (s.count - o.2))
          (expire_samples-none s.window_size now s.head 0 s.count s.calls s.tokens e)
        ∙ ap₂ (samples s.calls s.tokens s.head) (let i : 0 + 0 ≡ 0 = omega arith in i)
            (let n : s.count - 0 ≡ s.count = omega arith in n)
