-- ===== src/Model/SlidingWindow/Queue.antt =====
-- model/rate_limiter.go: the sliding window is a queue of the recent requests.
use simple_agent_framework.Prelude.{
  length-replicate, ℕ, suc, ◌+◌, ◌-◌, ◌%◌, ◌≤◌, ◌<◌, ◌≡◌, refl, ap, ap₂, sym, ◌∙◌, ltb, ltb→lt,
  lt→ltb, if◌then◌else◌, Bool, true, false, List, [], ◌∷◌, ◌++◌, length, set, length-set,
  Bool-cases, inl, inr, arith,
}
use simple_agent_framework.Model.SlidingWindow.{
  SlidingWindow, new_sliding_window, expire, cleanup, add_request, allow,
}
use simple_agent_framework.Model.SlidingWindow.Entries.{
  entries, length-entries, entries-snoc, entries-shift, drop_expired, Cleaned, expire-Cleaned,
  expire-none,
}
use native.Mathlib.Nat.{mod-lt}

-- The buffer has room for `maxReqs` entries, and head and count stay inside it.
pub record IsValid (s : SlidingWindow) : Type 0 where
  pub positive : 0 < s.max_reqs
  pub room : length s.requests ≡ s.max_reqs
  pub head_in : s.head < s.max_reqs
  pub count_in : s.count ≤ s.max_reqs

-- The times of the requests that count, oldest first.
abbrev pub view : SlidingWindow → List ℕ
view s = entries s.requests s.head 0 s.count

pub new-IsValid : (size n : ℕ) → 0 < n → IsValid (new_sliding_window size n)
unfolding new_sliding_window
new-IsValid size n pos = record {
  positive = pos;
  room = length-replicate n 0;
  head_in = pos;
  count_in = omega arith;
}

-- The bounded queue: what has expired is dropped, and a request is let in while there is room.
abbrev pub queue_allow : ℕ → ℕ → ℕ → ℕ → List ℕ → Bool × List ℕ
queue_allow size n now later q =
    let kept = drop_expired size now q in
    if ltb (length kept) n then (true, kept ++ later ∷ []) else (false, kept)

-- What `cleanup` leaves of a valid window.
record Swept (now : ℕ) (s t : SlidingWindow) : Type 0 where
  pub valid : IsValid t
  pub kept : view t ≡ drop_expired s.window_size now (view s)
  pub same_max : t.max_reqs ≡ s.max_reqs
  pub same_size : t.window_size ≡ s.window_size

cleanup-Swept : (now : ℕ) (s : SlidingWindow) → IsValid s → Swept now s (cleanup now s)
unfolding cleanup
cleanup-Swept now s v = elim (Bool-cases (ltb 0 out.1)) [
  | inl some_expired ↦ rw some_expired (record {
    valid = record {
      positive = v.positive;
      room = c.same_length ∙ v.room;
      head_in =
          (let below =
              mod-lt (s.head + out.1) {m = length s.requests} (omega (arith, v.room, v.positive)) in
            omega (arith, below, v.room));
      count_in = omega (arith, v.count_in);
    };
    kept =
        ap (λ k. entries out.0 ((s.head + out.1) % k) 0 (s.count - out.1)) (sym c.same_length)
        ∙ entries-shift out.0 s.head out.1 0 (s.count - out.1)
        ∙ ap (λ i. entries out.0 s.head i (s.count - out.1))
            (let e : out.1 + 0 ≡ 0 + out.1 = omega arith in e)
        ∙ sym c.left;
    same_max = refl;
    same_size = refl;
  })
  | inr none_expired ↦
      (let none_left : out.1 ≡ 0 = ground (arith, none_expired) in
        rw none_expired (record {
          valid = v;
          kept = sym (c.left ∙ unchanged none_left);
          same_max = refl;
          same_size = refl;
        }))
]
  where
    out : List ℕ × ℕ
    out = expire s.window_size now s.head 0 s.count s.requests

    c : Cleaned s.window_size now s.head 0 s.count s.requests out
    c =
        expire-Cleaned s.window_size now s.head 0 s.count s.requests
          (omega (arith, v.head_in, v.room)) (omega (arith, v.count_in, v.room))

    unchanged : out.1 ≡ 0 → entries out.0 s.head (0 + out.1) (s.count - out.1) ≡ view s
    unchanged e =
        ap (λ b. entries b s.head (0 + out.1) (s.count - out.1))
          (expire-none s.window_size now s.head 0 s.count s.requests e)
        ∙ ap₂ (entries s.requests s.head) (let i : 0 + out.1 ≡ 0 = omega (arith, e) in i)
            (let n : s.count - out.1 ≡ s.count = omega (arith, e) in n)

add_request-view :
    (t : SlidingWindow) (later : ℕ)
    → IsValid t
    → t.count < t.max_reqs
    → IsValid (add_request later t) × (view (add_request later t) ≡ view t ++ later ∷ [])
unfolding add_request
add_request-view t later v free =
    (let fits : ltb t.count (length t.requests) ≡ true =
        lt→ltb t.count (length t.requests) (omega (arith, free, v.room)) in
      rw fits (
        record {
          positive = v.positive;
          room = length-set t.requests _ later ∙ v.room;
          head_in = v.head_in;
          count_in = omega (arith, free);
        },
        ap
              (λ k.
                entries (set t.requests ((t.head + k) % length t.requests) later) t.head 0
                  (suc t.count))
              (let e : t.count ≡ 0 + t.count = omega arith in e)
            ∙ entries-snoc t.requests t.head 0 t.count later (omega (arith, v.head_in, v.room))
                (omega (arith, free, v.room)),
      ))

-- The answer of `Allow` behind `cleanup`.
abbrev admit : ℕ → SlidingWindow → Bool × SlidingWindow
admit later t = if ltb t.count t.max_reqs then (true, add_request later t) else (false, t)

abbrev queue_admit : ℕ → ℕ → List ℕ → Bool × List ℕ
queue_admit n later q = if ltb (length q) n then (true, q ++ later ∷ []) else (false, q)

admit_refines :
    (later : ℕ) (t : SlidingWindow)
    → IsValid t
    → IsValid (admit later t).1
      × (((admit later t).0, view (admit later t).1) ≡ queue_admit t.max_reqs later (view t))
admit_refines later t v = elim (Bool-cases (ltb t.count t.max_reqs)) [
  | inl free ↦
      (let (valid, added) = add_request-view t later v (ltb→lt t.count t.max_reqs free) in
        rw (length-entries t.requests t.head 0 t.count, free) (valid, ap (λ q. (true, q)) added))
  | inr full ↦ rw (length-entries t.requests t.head 0 t.count, full) (v, refl)
]

-- With a positive `maxReqs`, `Allow` keeps the window valid, answers as the bounded queue of the
-- times that count, and leaves the window with that queue.
pub allow_refines :
    (now later : ℕ) (s : SlidingWindow)
    → IsValid s
    → IsValid (allow now later s).1
      × (((allow now later s).0, view (allow now later s).1)
          ≡ queue_allow s.window_size s.max_reqs now later (view s))
unfolding allow
allow_refines now later s v =
    (let w = cleanup-Swept now s v in
      let (valid, same) = admit_refines later (cleanup now s) w.valid in
      (valid, same ∙ ap₂ (λ n q. queue_admit n later q) w.same_max w.kept))

-- `Allow` keeps the sizes.
pub allow-sizes :
    (now later : ℕ) (s : SlidingWindow)
    → ((allow now later s).1.max_reqs ≡ s.max_reqs)
      × ((allow now later s).1.window_size ≡ s.window_size)
unfolding allow add_request cleanup
allow-sizes now later s = ground arith
