-- ===== src/Metrics/Refine.antt =====
-- metrics/metrics.go: `Add`, `RPM` and `TPM` act on the queue.
use simple_agent_framework.Prelude.{
  ℕ, suc, zero, ◌+◌, ◌-◌, ◌%◌, ◌<◌, ◌≡◌, refl, ap, ap₂, sym, ◌∙◌, ltb, ltb→lt, List, [], ◌∷◌, ◌++◌,
  length, set, get_or, length-set, Bool-cases, inl, inr, arith,
}
use simple_agent_framework.Model.SlidingWindow.Entries.{
  entries, length-entries, entries-snoc, entries-shift,
}
use simple_agent_framework.Metrics.{
  SlidingWindowCounter, Rates, cleanup_samples, put_sample, add_sample, sum_tokens, rpm, tpm, rate,
}
use simple_agent_framework.Metrics.Samples.{zip, samples, drop_old}
use simple_agent_framework.Metrics.Queue.{IsValid, view, push, tail, total, cleanup_samples-Swept}
use native.Mathlib.Nat.{mod-lt, mod-add-mod}

zip-snoc :
    (xs ys : List ℕ) (x y : ℕ)
    → length xs ≡ length ys
    → zip (xs ++ x ∷ []) (ys ++ y ∷ []) ≡ zip xs ys ++ (x, y) ∷ []
zip-snoc [] [] x y e = refl
zip-snoc (a ∷ xs) (b ∷ ys) x y e = ap (◌∷◌ (a, b)) (zip-snoc xs ys x y (omega (arith, e)))
zip-snoc [] (b ∷ ys) x y e = absurd (omega (arith, e))
zip-snoc (a ∷ xs) [] x y e = absurd (omega (arith, e))

length-zip : (xs ys : List ℕ) → length xs ≡ length ys → length (zip xs ys) ≡ length xs
length-zip [] ys e = refl
length-zip (a ∷ xs) [] e = absurd (omega (arith, e))
length-zip (a ∷ xs) (b ∷ ys) e = ap suc (length-zip xs ys (omega (arith, e)))

length-view : (s : SlidingWindowCounter) → length (view s) ≡ s.count
length-view s =
    length-zip (entries s.calls s.head 0 s.count) (entries s.tokens s.head 0 s.count)
      (length-entries s.calls s.head 0 s.count ∙ sym (length-entries s.tokens s.head 0 s.count))
    ∙ length-entries s.calls s.head 0 s.count

-- With room, what is written becomes the last entry.
entries-put :
    (buf : List ℕ) (cap head n x : ℕ)
    → length buf ≡ cap
    → head < cap
    → n < cap
    → entries (set buf ((head + n) % cap) x) head 0 (suc n) ≡ entries buf head 0 n ++ x ∷ []
entries-put buf cap head n x e h fits =
    ap₂ (λ k c. entries (set buf ((head + k) % c) x) head 0 (suc n))
      (let z : n ≡ 0 + n = omega arith in z) (sym e)
    ∙ entries-snoc buf head 0 n x (omega (arith, e, h)) (omega (arith, e, fits))

-- Without room, it takes the place of the first, and is the last behind a head that has moved on.
entries-push :
    (buf : List ℕ) (head n x : ℕ)
    → length buf ≡ suc n
    → head < suc n
    → entries (set buf ((head + suc n) % suc n) x) (suc head % suc n) 0 (suc n)
      ≡ entries buf head 1 n ++ x ∷ []
entries-push buf head n x e h =
    ap (λ p. entries (set buf p x) (suc head % suc n) 0 (suc n))
      (ap (λ k. k % suc n) (let z : head + suc n ≡ suc head + n = omega arith in z)
        ∙ sym (mod-add-mod (suc head) (suc n) n))
    ∙ entries-put buf (suc n) (suc head % suc n) n x e (mod-lt (suc head) (omega arith))
        (omega arith)
    ∙ ap (λ l. l ++ x ∷ [])
        (ap₂ (λ h k. entries buf (h % k) 0 n) (let z : suc head ≡ head + 1 = omega arith in z)
            (sym e)
          ∙ entries-shift buf head 1 0 n
          ∙ ap (λ i. entries buf head i n) (let z : 1 + 0 ≡ 1 = omega arith in z))

same_lengths :
    (as' bs : List ℕ) (head i n : ℕ) → length (entries as' head i n) ≡ length (entries bs head i n)
same_lengths as' bs head i n = length-entries as' head i n ∙ sym (length-entries bs head i n)

samples-put :
    (calls tokens : List ℕ) (head n now x : ℕ)
    → length tokens ≡ length calls
    → head < length calls
    → n < length calls
    → samples
        (set calls ((head + n) % length calls) now)
        (set tokens ((head + n) % length calls) x)
        head
        0
        (suc n)
      ≡ samples calls tokens head 0 n ++ (now, x) ∷ []
samples-put calls tokens head n now x e h fits =
    ap₂ zip (entries-put calls (length calls) head n now refl h fits)
      (entries-put tokens (length calls) head n x e h fits)
    ∙ zip-snoc (entries calls head 0 n) (entries tokens head 0 n) now x
        (same_lengths calls tokens head 0 n)

samples-push :
    (calls tokens : List ℕ) (head n now x : ℕ)
    → length calls ≡ suc n
    → length tokens ≡ suc n
    → head < suc n
    → samples
        (set calls ((head + suc n) % suc n) now)
        (set tokens ((head + suc n) % suc n) x)
        (suc head % suc n)
        0
        (suc n)
      ≡ tail (samples calls tokens head 0 (suc n)) ++ (now, x) ∷ []
samples-push calls tokens head n now x e e' h =
    ap₂ zip (entries-push calls head n now e h) (entries-push tokens head n x e' h)
    ∙ zip-snoc (entries calls head 1 n) (entries tokens head 1 n) now x
        (same_lengths calls tokens head 1 n)

put_sample-refines :
    (now x : ℕ) (s : SlidingWindowCounter)
    → IsValid s
    → IsValid (put_sample now x s)
      × (view (put_sample now x s) ≡ push (length s.calls) (now, x) (view s))
unfolding put_sample
put_sample-refines now x s v = elim (Bool-cases (ltb s.count (length s.calls))) [
  | inl free ↦
      rw (length-view s, free)
        (
          record {
            positive = omega (arith, v.positive, length-set s.calls place now);
            same = length-set s.tokens place x ∙ v.same ∙ sym (length-set s.calls place now);
            head_in = omega (arith, v.head_in, length-set s.calls place now);
            count_in =
                (let below = ltb→lt s.count (length s.calls) free in
                  omega (arith, below, length-set s.calls place now));
          },
          samples-put s.calls s.tokens s.head s.count now x v.same v.head_in
              (ltb→lt s.count (length s.calls) free),
        )
  | inr full ↦
      rw (length-view s, full)
        (
          record {
            positive = omega (arith, v.positive, length-set s.calls place now);
            same = length-set s.tokens place x ∙ v.same ∙ sym (length-set s.calls place now);
            head_in =
                (let below = mod-lt (suc s.head) {m = length s.calls} v.positive in
                  omega (arith, below, length-set s.calls place now));
            count_in = omega (arith, v.count_in, length-set s.calls place now);
          },
          pushed (length s.calls - 1) (omega (arith, v.positive))
              (ground (arith, full, v.count_in)),
        )
]
  where
    place : ℕ
    place = (s.head + s.count) % length s.calls

    pushed :
        (n : ℕ)
        → length s.calls ≡ suc n
        → s.count ≡ length s.calls
        → samples
            (set s.calls place now)
            (set s.tokens place x)
            (suc s.head % length s.calls)
            0
            s.count
          ≡ tail (view s) ++ (now, x) ∷ []
    pushed n e full =
        ap₂
          (λ c k.
            samples (set s.calls ((s.head + c) % k) now) (set s.tokens ((s.head + c) % k) x)
              (suc s.head % k) 0 c)
          (full ∙ e) e
        ∙ samples-push s.calls s.tokens s.head n now x e (v.same ∙ e) (omega (arith, v.head_in, e))
        ∙ ap (λ c. tail (samples s.calls s.tokens s.head 0 c) ++ (now, x) ∷ []) (sym (full ∙ e))

-- The sum that `TPM` runs is that of the samples.
sum_tokens-total :
    (calls tokens : List ℕ) (head i n : ℕ)
    → sum_tokens head (length tokens) i tokens n ≡ total (samples calls tokens head i n)
unfolding sum_tokens
sum_tokens-total calls tokens head i zero = refl
sum_tokens-total calls tokens head i (suc n) =
    ap (λ t. get_or tokens ((head + i) % length tokens) 0 + t)
      (sum_tokens-total calls tokens head (suc i) n)

module _ {F : Type 0} (r : Rates F) where
  -- A valid counter stays valid and acts as the queue of the samples that are recent, oldest first:
  -- `Add` puts a sample last, in place of the oldest where the buffer is full; `RPM` is the rate of
  -- the number of recent samples, and `TPM` that of their tokens.
  pub counter-refines :
      (now x : ℕ) (s : SlidingWindowCounter)
      → IsValid s
      → let recent = drop_old s.window_size now (view s) in
        IsValid (add_sample now x s)
        × (view (add_sample now x s) ≡ push (length s.calls) (now, x) recent)
        × ((rpm r now s).0 ≡ rate r s.window_size (length recent) (length recent))
        × ((tpm r now s).0 ≡ rate r s.window_size (length recent) (total recent))
  unfolding add_sample rpm tpm
  counter-refines now x s v =
      let w = cleanup_samples-Swept now s v in
      let c = cleanup_samples now s in
      let (valid, added) = put_sample-refines now x c w.valid in
      let size = sym (length-view c) ∙ ap length w.kept in
      (
        valid,
        added ∙ ap₂ (λ k q. push k (now, x) q) w.same_room w.kept,
        ap₂ (λ z k. rate r z k k) w.same_size size,
        ap (λ z. rate r z c.count (sum_tokens c.head (length c.calls) 0 c.tokens c.count))
              w.same_size
            ∙ ap₂ (rate r s.window_size) size (
                ap (λ k. sum_tokens c.head k 0 c.tokens c.count) (sym w.valid.same)
                ∙ sum_tokens-total c.calls c.tokens c.head 0 c.count
                ∙ ap total w.kept),
      )
