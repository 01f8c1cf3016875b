-- ===== src/Model/RateLimiter/Served.antt =====
-- model/rate_limiter.go: what the combined limiter lets in, whichever of its methods are called.
use simple_agent_framework.Prelude.{
  ℕ, ◌≤◌, ◌<◌, ◌+◌, ◌≡◌, refl, ◌∙◌, if◌then◌else◌, false, List, [], ◌∷◌, ◌++◌, map, Bool-cases,
  Option-cases, inl, inr, arith,
}
use simple_agent_framework.Model.SlidingWindow.{SlidingWindow, allow}
use simple_agent_framework.Model.SlidingWindow.Rate.{grants, Clock, grants-paced}
use simple_agent_framework.Model.SlidingWindow.Passed.{recent_count}
use simple_agent_framework.Model.SlidingWindow.Skipped.{
  Within, kept, Within-append, Within-none, Clock-Within, grants-append,
}
use simple_agent_framework.Model.RateLimiter.{
  Floats, TokenRound, WindowRound, Waited, waiting, stopped, let_in, wait_window, take_token,
  wait_token, RateLimiter, new_rate_limiter, allow_request, wait_request,
}

-- A call of `Allow`, with the times that it may read, or of `Wait`, with its rounds.
pub data Request : Type 0 where
  allowing : ℕ → ℕ → ℕ → Request
  waits : List TokenRound → List WindowRound → Request

-- The pairs of times that the window may read.
abbrev pub window_times : Request → List (ℕ × ℕ)
window_times (allowing at now later) = (now, later) ∷ []
window_times (waits ts ws) = map (λ w. (w.now, w.later)) ws

abbrev pub all_times : List Request → List (ℕ × ℕ)
all_times [] = []
all_times (q ∷ qs) = window_times q ++ all_times qs

abbrev entry : Waited → List ℕ
entry waiting = []
entry (stopped e) = []
entry (let_in t) = t ∷ []

module _ {F : Type 0} (f : Floats F) where
  -- When a request is let in, if it is.
  unfoldable pub serve_one : Request → RateLimiter f → List ℕ × RateLimiter f
  serve_one (allowing at now later) r =
      let (entered, r') = allow_request f at now later r in (if entered then later ∷ [] else [], r')
  serve_one (waits ts ws) r = let (w, r') = wait_request f ts ws r in (entry w, r')

  -- The requests that are let in, by the times from which they count.
  unfoldable pub serve : List Request → RateLimiter f → List ℕ × RateLimiter f
  unfolding serve_one
  serve [] r = ([], r)
  serve (q ∷ qs) r =
      let (l, r') = serve_one q r in let (more, r'') = serve qs r' in (l ++ more, r'')

-- What was let in, and the window behind it, are those of calls of the window's `Allow` at some of the
-- times.
record Through (times : List (ℕ × ℕ)) (s : SlidingWindow) (l : List ℕ) (s' : SlidingWindow)
    : Type 0 where
  pub calls : List (ℕ × ℕ)
  pub within : Within calls times
  pub same : grants calls s ≡ (l, s')

untouched : (times : List (ℕ × ℕ)) (s : SlidingWindow) → Through times s [] s
unfolding grants
untouched times s = record { calls = []; within = Within-none times; same = refl }

once :
    (now later : ℕ) (times : List (ℕ × ℕ)) (s : SlidingWindow)
    → Through
        ((now, later) ∷ times)
        s
        (if (allow now later s).0 then later ∷ [] else [])
        (allow now later s).1
unfolding grants
once now later times s = record {
  calls = (now, later) ∷ [];
  within = kept (now, later) [] times (Within-none times);
  same = refl;
}

wait_window-Through :
    (ws : List WindowRound) (s : SlidingWindow)
    → Through (map (λ w. (w.now, w.later)) ws) s (entry (wait_window ws s).0) (wait_window ws s).1
unfolding wait_window grants
wait_window-Through [] s = untouched [] s
wait_window-Through (w ∷ ws) s = elim (Option-cases w.context) [
  | inr (e, done) ↦ rw done (untouched ((w.now, w.later) ∷ rest) s)
  | inl live ↦ rw live (elim (Bool-cases (allow w.now w.later s).0) [
    | inl entered ↦ rw entered (rw entered at (once w.now w.later rest s))
    | inr full ↦ rw full (elim (Option-cases w.slept) [
      | inr (e, done) ↦ rw done (rw full at (once w.now w.later rest s))
      | inl slept ↦ rw slept (further (wait_window-Through ws (allow w.now w.later s).1) full)
    ])
  ])
]
  where
    rest : List (ℕ × ℕ)
    rest = map (λ w. (w.now, w.later)) ws

    further :
        {l : List ℕ} {s' : SlidingWindow}
        → Through rest (allow w.now w.later s).1 l s'
        → (allow w.now w.later s).0 ≡ false
        → Through ((w.now, w.later) ∷ rest) s l s'
    further t full = record {
      calls = (w.now, w.later) ∷ t.calls;
      within = kept (w.now, w.later) t.calls rest t.within;
      same = rw full t.same;
    }

module _ {F : Type 0} (f : Floats F) where
  serve_one-Through :
      (q : Request) (r : RateLimiter f)
      → Through
          (window_times q)
          r.sliding_window
          (serve_one f q r).0
          (serve_one f q r).1.sliding_window
  unfolding serve_one allow_request wait_request
  serve_one-Through (allowing at now later) r =
      elim (Bool-cases (take_token f at r.token_bucket).0) [
        | inl taken ↦ rw taken (once now later [] r.sliding_window)
        | inr empty ↦ rw empty (untouched ((now, later) ∷ []) r.sliding_window)
      ]
  serve_one-Through (waits ts ws) r = by_bucket (wait_token f ts r.token_bucket).0 refl
    where
      by_bucket :
          (w : Waited)
          → (wait_token f ts r.token_bucket).0 ≡ w
          → Through
              (window_times (waits ts ws))
              r.sliding_window
              (serve_one f (waits ts ws) r).0
              (serve_one f (waits ts ws) r).1.sliding_window
      by_bucket waiting e =
          rw (wait_request, e) (untouched (map (λ w. (w.now, w.later)) ws) r.sliding_window)
      by_bucket (stopped x) e =
          rw (wait_request, e) (untouched (map (λ w. (w.now, w.later)) ws) r.sliding_window)
      by_bucket (let_in t) e = rw (wait_request, e) (wait_window-Through ws r.sliding_window)

  serve-Through :
      (qs : List Request) (r : RateLimiter f)
      → Through (all_times qs) r.sliding_window (serve f qs r).0 (serve f qs r).1.sliding_window
  unfolding serve
  serve-Through [] r = untouched [] r.sliding_window
  serve-Through (q ∷ qs) r =
      let t = serve_one-Through q r in
      let u = serve-Through qs (serve_one f q r).1 in
      record {
        calls = t.calls ++ u.calls;
        within = Within-append t.calls (window_times q) u.calls (all_times qs) t.within u.within;
        same = grants-append t.calls u.calls r.sliding_window ∙ rw (t.same, u.same) refl;
      }

  -- Whatever calls of `Allow` and of `Wait` are made of a new limiter with a positive `maxInWindow`,
  -- by a clock that does not go back, whatever its contexts do and however the bucket counts, it lets
  -- in at most `maxInWindow` requests in the window that ends at any time from the last call on.
  pub serve-bounded :
      (capacity : ℕ) (per_second : F) (size n start : ℕ) (qs : List Request) (end : ℕ)
      → 0 < n
      → Clock 0 (all_times qs) end
      → recent_count size end (serve f qs (new_rate_limiter f capacity per_second size n start)).0
        ≤ n
  unfolding new_rate_limiter
  serve-bounded capacity per_second size n start qs end pos c =
      let t = serve-Through qs (new_rate_limiter f capacity per_second size n start) in
      let paced =
        grants-paced size n t.calls end (end + size) (end + size) pos
          (Clock-Within 0 t.calls (all_times qs) end t.within c) (omega arith) in
      rw (t.same) at paced.0
