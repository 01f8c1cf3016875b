-- ===== src/Metrics/Samples.antt =====
-- metrics/metrics.go: the samples in the two ring buffers, oldest first.
use simple_agent_framework.Prelude.{
  ℕ, suc, zero, ◌+◌, ◌-◌, ◌%◌, ◌≤◌, ◌<◌, ◌≡◌, refl, ap, ap₂, sym, ◌∙◌, if◌then◌else◌, List, [], ◌∷◌,
  length, set, get_or, length-set, Bool-cases, inl, inr, arith,
}
use simple_agent_framework.Model.SlidingWindow.{is_recent}
use simple_agent_framework.Model.SlidingWindow.Entries.{entries, entries-set}
use simple_agent_framework.Metrics.{expire_samples}

abbrev pub zip : List ℕ → List ℕ → List (ℕ × ℕ)
zip [] ys = []
zip (x ∷ xs) [] = []
zip (x ∷ xs) (y ∷ ys) = (x, y) ∷ zip xs ys

-- The `n` samples from the offset `i` on.
abbrev pub samples : List ℕ → List ℕ → ℕ → ℕ → ℕ → List (ℕ × ℕ)
samples calls tokens head i n = zip (entries calls head i n) (entries tokens head i n)

-- Drops the oldest samples that are no longer recent.
abbrev pub drop_old : ℕ → ℕ → List (ℕ × ℕ) → List (ℕ × ℕ)
drop_old size now [] = []
drop_old size now ((t, x) ∷ q) = if is_recent size now t then (t, x) ∷ q else drop_old size now q

-- What is written at an offset changes no sample behind it.
samples-set :
    (calls tokens : List ℕ) (head i j n x y : ℕ)
    → length tokens ≡ length calls
    → head < length calls
    → j < i
    → i + n ≤ length calls
    → samples
        (set calls ((head + j) % length calls) x)
        (set tokens ((head + j) % length calls) y)
        head
        i
        n
      ≡ samples calls tokens head i n
samples-set calls tokens head i j n x y same h ji fits =
    ap₂ zip (entries-set calls head i j n x h ji fits) (
      ap (λ k. entries (set tokens ((head + j) % k) y) head i n) (sym same)
      ∙ entries-set tokens head i j n y (omega (arith, h, same)) ji (omega (arith, fits, same)))

-- What the loop of `cleanup` leaves, of the `n` samples from the offset `i` on.
pub record Cleared (size now head i n : ℕ) (calls tokens : List ℕ) (out : List ℕ × List ℕ × ℕ)
    : Type 0 where
  pub expired_le : out.2 ≤ n
  pub same_calls : length out.0 ≡ length calls
  pub same_tokens : length out.1 ≡ length tokens
  pub left :
      drop_old size now (samples calls tokens head i n)
      ≡ samples out.0 out.1 head (i + out.2) (n - out.2)

pub expire_samples-Cleared :
    (size now head i n : ℕ) (calls tokens : List ℕ)
    → length tokens ≡ length calls
    → head < length calls
    → i + n ≤ length calls
    → Cleared size now head i n calls tokens (expire_samples size now head i n calls tokens)
unfolding expire_samples
expire_samples-Cleared size now head i zero calls tokens same h fits = record {
  expired_le = omega arith;
  same_calls = refl;
  same_tokens = refl;
  left = refl;
}
expire_samples-Cleared size now head i (suc n) calls tokens same h fits =
    elim (Bool-cases (is_recent size now (get_or calls place 0))) [
      | inl recent ↦ rw recent (record {
        expired_le = omega arith;
        same_calls = refl;
        same_tokens = refl;
        left = rw recent (
            ap₂ (samples calls tokens head) (let e : i ≡ i + 0 = omega arith in e)
              (let e : suc n ≡ suc n - 0 = omega arith in e));
      })
      | inr old ↦
          (let rest =
              expire_samples-Cleared size now head (suc i) n (set calls place 0)
                (set tokens place 0)
                (length-set tokens place 0 ∙ same ∙ sym (length-set calls place 0))
                (omega (arith, h, length-set calls place 0))
                (omega (arith, fits, length-set calls place 0)) in
            rw old (record {
              expired_le = omega (arith, rest.expired_le);
              same_calls = rest.same_calls ∙ length-set calls place 0;
              same_tokens = rest.same_tokens ∙ length-set tokens place 0;
              left = rw old (
                  ap (drop_old size now) (
                    sym (
                      samples-set calls tokens head (suc i) i n 0 0 same h (omega arith)
                        (omega (arith, fits))))
                  ∙ rest.left
                  ∙ ap₂ (samples out.0 out.1 head)
                      (let e : suc i + out.2 ≡ i + suc out.2 = omega arith in e)
                      (let e : n - out.2 ≡ suc n - suc out.2 = omega arith in e));
            }))
    ]
  where
    place : ℕ
    place = (head + i) % length calls

    out : List ℕ × List ℕ × ℕ
    out = expire_samples size now head (suc i) n (set calls place 0) (set tokens place 0)

-- Where nothing has expired, nothing is written.
pub expire_samples-none :
    (size now head i n : ℕ) (calls tokens : List ℕ)
    → (expire_samples size now head i n calls tokens).2 ≡ 0
    → (expire_samples size now head i n calls tokens) ≡ (calls, tokens, 0)
unfolding expire_samples
expire_samples-none size now head i zero calls tokens e = refl
expire_samples-none size now head i (suc n) calls tokens e =
    elim (Bool-cases (is_recent size now (get_or calls ((head + i) % length calls) 0))) [
      | inl recent ↦ rw recent refl
      | inr old ↦ absurd (let e' = rw old at e in omega (arith, e'))
    ]
