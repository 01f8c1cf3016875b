-- ===== src/Model/SlidingWindow/Entries.antt =====
-- model/rate_limiter.go: the entries of the ring buffer, oldest first.
use simple_agent_framework.Prelude.{
  ℕ, suc, zero, ◌+◌, ◌-◌, ◌%◌, ◌≤◌, ◌<◌, ◌≡◌, ◌≢◌, refl, ap, ap₂, sym, ◌∙◌, if◌then◌else◌, List, [],
  ◌∷◌, ◌++◌, length, set, get_or, get_or-set_self, get_or-set_ne, length-set, Bool-cases, inl, inr,
  arith,
}
use simple_agent_framework.Model.SlidingWindow.{is_recent, expire}
use native.Mathlib.Nat.{mod-lt, mod-add-mod, mod-eq_of_lt, mod-eq-sub-mod}
use native.Mathlib.Decide.{dec_lt}

-- The `n` entries from the offset `i` on.
abbrev pub entries : List ℕ → ℕ → ℕ → ℕ → List ℕ
entries buf head i zero = []
entries buf head i (suc n) = get_or buf ((head + i) % length buf) 0 ∷ entries buf head (suc i) n

pub length-entries : (buf : List ℕ) (head i n : ℕ) → length (entries buf head i n) ≡ n
length-entries buf head i zero = refl
length-entries buf head i (suc n) = ap suc (length-entries buf head (suc i) n)

-- Two offsets below the capacity are two places of the ring.
places_ne : {cap head i j : ℕ} → head < cap → i < j → j < cap → (head + i) % cap ≢ (head + j) % cap
places_ne {cap} {head} {i} {j} h ij jc = elim (dec_lt (head + i) cap) [
  | yes low ↦ elim (dec_lt (head + j) cap) [
    | yes low' ↦ omega (arith, mod-eq_of_lt low, mod-eq_of_lt low')
    | no high' ↦ omega (
      arith,
      mod-eq_of_lt low,
      mod-eq-sub-mod {n = head + j} {m = cap} (omega arith),
      mod-eq_of_lt {n = head + j - cap} {m = cap} (omega arith),
    )
  ]
  | no high ↦ omega (
    arith,
    mod-eq-sub-mod {n = head + i} {m = cap} (omega arith),
    mod-eq_of_lt {n = head + i - cap} {m = cap} (omega arith),
    mod-eq-sub-mod {n = head + j} {m = cap} (omega arith),
    mod-eq_of_lt {n = head + j - cap} {m = cap} (omega arith),
  )
]

-- What is written at an offset changes no entry behind it.
pub entries-set :
    (buf : List ℕ) (head i j n x : ℕ)
    → head < length buf
    → j < i
    → i + n ≤ length buf
    → entries (set buf ((head + j) % length buf) x) head i n ≡ entries buf head i n
entries-set buf head i j zero x h ji fits = refl
entries-set buf head i j (suc n) x h ji fits =
    ap₂ ◌∷◌
      (ap (λ c. get_or (set buf ((head + j) % length buf) x) ((head + i) % c) 0)
          (length-set buf _ x)
        ∙ get_or-set_ne buf x 0
            (places_ne {cap = length buf} {head = head} {i = j} {j = i} h ji (omega (arith, fits))))
      (entries-set buf head (suc i) j n x h (omega (arith, ji)) (omega (arith, fits)))

-- What is written right behind the entries becomes the last of them.
pub entries-snoc :
    (buf : List ℕ) (head i n x : ℕ)
    → head < length buf
    → i + n < length buf
    → entries (set buf ((head + (i + n)) % length buf) x) head i (suc n)
      ≡ entries buf head i n ++ x ∷ []
entries-snoc buf head i zero x h fits =
    ap (λ t. t ∷ [])
      (ap (λ p. get_or (set buf ((head + (i + 0)) % length buf) x) p 0)
          (ap (λ c. (head + i) % c) (length-set buf ((head + (i + 0)) % length buf) x)
            ∙ ap (λ k. (head + k) % length buf) (let e : i ≡ i + 0 = omega arith in e))
        ∙ get_or-set_self buf ((head + (i + 0)) % length buf) x 0
            (mod-lt (head + (i + 0)) (omega (arith, h))))
entries-snoc buf head i (suc n) x h fits =
    ap₂ ◌∷◌
      (ap (λ c. get_or (set buf ((head + (i + suc n)) % length buf) x) ((head + i) % c) 0)
          (length-set buf ((head + (i + suc n)) % length buf) x)
        ∙ get_or-set_ne buf x 0 (λ e.
          places_ne {cap = length buf} {head = head} {i = i} {j = i + suc n} h (omega arith)
            (omega (arith, fits)) (sym e)))
      (ap (λ k. entries (set buf ((head + k) % length buf) x) head (suc i) (suc n))
          (let e : i + suc n ≡ suc i + n = omega arith in e)
        ∙ entries-snoc buf head (suc i) n x h (omega (arith, fits)))

-- A head that is moved on by `k` is an offset of `k`.
pub entries-shift :
    (buf : List ℕ) (head k i n : ℕ)
    → entries buf ((head + k) % length buf) i n ≡ entries buf head (k + i) n
entries-shift buf head k i zero = refl
entries-shift buf head k i (suc n) =
    ap₂ ◌∷◌
      (ap (λ p. get_or buf p 0)
        (mod-add-mod (head + k) (length buf) i ∙ ap (λ p. p % length buf) (omega arith)))
      (entries-shift buf head k (suc i) n ∙ ap (λ p. entries buf head p n) (omega arith))

-- Drops the oldest times that are no longer recent.
abbrev pub drop_expired : ℕ → ℕ → List ℕ → List ℕ
drop_expired size now [] = []
drop_expired size now (t ∷ ts) = if is_recent size now t then t ∷ ts else drop_expired size now ts

-- What the loop of `cleanup` leaves, of the `n` entries from the offset `i` on.
pub record Cleaned (size now head i n : ℕ) (buf : List ℕ) (out : List ℕ × ℕ) : Type 0 where
  pub expired_le : out.1 ≤ n
  pub same_length : length out.0 ≡ length buf
  pub left :
      drop_expired size now (entries buf head i n) ≡ entries out.0 head (i + out.1) (n - out.1)

pub expire-Cleaned :
    (size now head i n : ℕ) (buf : List ℕ)
    → head < length buf
    → i + n ≤ length buf
    → Cleaned size now head i n buf (expire size now head i n buf)
unfolding expire
expire-Cleaned size now head i zero buf h fits = record {
  expired_le = omega arith;
  same_length = refl;
  left = refl;
}
expire-Cleaned size now head i (suc n) buf h fits =
    elim (Bool-cases (is_recent size now (get_or buf ((head + i) % length buf) 0))) [
      | inl recent ↦ rw recent (record {
        expired_le = omega arith;
        same_length = refl;
        left = rw recent (
            ap₂ (λ a b. entries buf head a b) (let e : i ≡ i + 0 = omega arith in e)
              (let e : suc n ≡ suc n - 0 = omega arith in e));
      })
      | inr old ↦
          (let rest =
              expire-Cleaned size now head (suc i) n (set buf place 0)
                (omega (arith, h, length-set buf place 0))
                (omega (arith, fits, length-set buf place 0)) in
            rw old (record {
              expired_le = omega (arith, rest.expired_le);
              same_length = rest.same_length ∙ length-set buf place 0;
              left = rw old (
                  ap (drop_expired size now)
                    (sym (entries-set buf head (suc i) i n 0 h (omega arith) (omega (arith, fits))))
                  ∙ rest.left
                  ∙ ap₂
                      (λ a b. entries (expire size now head (suc i) n (set buf place 0)).0 head a b)
                      (let e : suc i + k ≡ i + suc k = omega arith in e)
                      (let e : n - k ≡ suc n - suc k = omega arith in e));
            }))
    ]
  where
    place : ℕ
    place = (head + i) % length buf

    k : ℕ
    k = (expire size now head (suc i) n (set buf place 0)).1

-- Where nothing has expired, nothing is written.
pub expire-none :
    (size now head i n : ℕ) (buf : List ℕ)
    → (expire size now head i n buf).1 ≡ 0
    → (expire size now head i n buf).0 ≡ buf
unfolding expire
expire-none size now head i zero buf e = refl
expire-none size now head i (suc n) buf e =
    elim (Bool-cases (is_recent size now (get_or buf ((head + i) % length buf) 0))) [
      | inl recent ↦ rw recent refl
      | inr old ↦ absurd (let e' = rw old at e in omega (arith, e'))
    ]
