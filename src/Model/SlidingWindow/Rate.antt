-- ===== src/Model/SlidingWindow/Rate.antt =====
-- model/rate_limiter.go: how many requests the sliding window lets in, and when.
use simple_agent_framework.Prelude.{
  ℕ, ◌+◌, ◌≤◌, ◌<◌, ◌≡◌, refl, ap, ap₂, sym, ◌∙◌, lt→ltb, leb, if◌then◌else◌, Bool, true, false,
  ◌&&◌, List, [], ◌∷◌, ◌++◌, all-append, arith,
}
use simple_agent_framework.Model.SlidingWindow.{SlidingWindow, new_sliding_window, allow}
use simple_agent_framework.Model.SlidingWindow.Entries.{length-entries, drop_expired}
use simple_agent_framework.Model.SlidingWindow.Queue.{
  IsValid, view, allow_refines, allow-sizes, new-IsValid,
}
use simple_agent_framework.Model.SlidingWindow.Passed.{
  recent_count, recent_count-le, recent_count-append, over, over-later, over-recent, past,
  past-over, past-later, over-drop_expired, Queued, queue_allow-Queued,
}
use mathlib.Core.List.{append_assoc, append-nil}

-- The calls of `Allow`, each with the two times that it reads: the times of the requests that are
-- let in, and the window behind them.
unfoldable pub grants : List (ℕ × ℕ) → SlidingWindow → List ℕ × SlidingWindow
grants [] s = ([], s)
grants ((now, later) ∷ rest) s =
    let (ok, s') = allow now later s in
    let (more, s'') = grants rest s' in (if ok then later ∷ more else more, s'')

-- The clock does not go back: the times of the calls, from `start` to `end`.
abbrev pub Clock : ℕ → List (ℕ × ℕ) → ℕ → Type 0
Clock start [] end = start ≤ end
Clock start ((now, later) ∷ rest) end = (start ≤ now) × (now ≤ later) × Clock later rest end

-- What has been let in by the time `at`, of a window with the two sizes: what is out of the window,
-- and what the window holds.
record Kept (size n at : ℕ) (granted : List ℕ) (s : SlidingWindow) : Type 0 where
  pub valid : IsValid s
  pub same_max : s.max_reqs ≡ n
  pub same_size : s.window_size ≡ size
  pub gone : List ℕ
  pub parts : granted ≡ gone ++ view s
  pub all_over : over size at gone ≡ true
  pub all_past : past at (view s) ≡ true

allow-Kept :
    (size n at now later : ℕ) (granted : List ℕ) (s : SlidingWindow)
    → at ≤ now
    → now ≤ later
    → Kept size n at granted s
    → Kept size n later
        (granted ++ (if (allow now later s).0 then later ∷ [] else []))
        (allow now later s).1
allow-Kept size n at now later granted s h h' k =
    (let (valid, same) = allow_refines now later s k.valid in
      let q : Queued s.window_size now later (view s)
          ((allow now later s).0, view (allow now later s).1) =
        rw same (
          queue_allow-Queued s.window_size s.max_reqs now later (view s) h'
            (past-later at now (view s) h k.all_past)) in
      let extra = if (allow now later s).0 then later ∷ [] else [] in
      let old : over size later k.gone ≡ true =
        over-later size at later k.gone (omega arith) k.all_over in
      let new : over size later q.gone ≡ true =
        ap (λ z. over z later q.gone) (sym k.same_size)
        ∙ over-later s.window_size now later q.gone h' q.all_over in
      record {
        valid = valid;
        same_max = (allow-sizes now later s).0 ∙ k.same_max;
        same_size = (allow-sizes now later s).1 ∙ k.same_size;
        gone = k.gone ++ q.gone;
        parts =
            ap (λ l. l ++ extra) k.parts
            ∙ append_assoc k.gone (view s) extra
            ∙ ap (λ l. k.gone ++ l) q.parts
            ∙ sym (append_assoc k.gone q.gone (view (allow now later s).1));
        all_over = all-append (λ t. leb (t + size) later) k.gone q.gone ∙ ap₂ ◌&&◌ old new;
        all_past = q.all_past;
      })

grants-Kept :
    (size n start : ℕ) (calls : List (ℕ × ℕ)) (end : ℕ) (granted : List ℕ) (s : SlidingWindow)
    → Clock start calls end
    → Kept size n start granted s
    → Kept size n end (granted ++ (grants calls s).0) (grants calls s).1
unfolding grants
grants-Kept size n start [] end granted s c k = record {
  valid = k.valid;
  same_max = k.same_max;
  same_size = k.same_size;
  gone = k.gone;
  parts = append-nil granted ∙ k.parts;
  all_over = over-later size start end k.gone c k.all_over;
  all_past = past-later start end (view s) c k.all_past;
}
grants-Kept size n start ((now, later) ∷ rest) end granted s c k =
    (let k' = allow-Kept size n start now later granted s c.0 c.1 k in
      let r = grants-Kept size n later rest end _ (allow now later s).1 c.2 k' in
      rw (regroup (allow now later s).0) r)
  where
    more : List ℕ
    more = (grants rest (allow now later s).1).0

    regroup :
        (ok : Bool)
        → granted ++ (if ok then later ∷ more else more)
          ≡ (granted ++ (if ok then later ∷ [] else [])) ++ more
    regroup true = sym (append_assoc granted (later ∷ []) more)
    regroup false = ap (λ l. l ++ more) (sym (append-nil granted))

new-Kept : (size n : ℕ) → 0 < n → Kept size n 0 [] (new_sliding_window size n)
unfolding new_sliding_window
new-Kept size n pos = record {
  valid = new-IsValid size n pos;
  same_max = refl;
  same_size = refl;
  gone = [];
  parts = refl;
  all_over = refl;
  all_past = refl;
}

grants-bounded :
    (size n : ℕ) (calls : List (ℕ × ℕ)) (now : ℕ)
    → 0 < n
    → Clock 0 calls now
    → recent_count size now (grants calls (new_sliding_window size n)).0 ≤ n
grants-bounded size n calls now pos c =
    (let k =
        grants-Kept size n 0 calls now [] (new_sliding_window size n) c (new-Kept size n pos) in
      let s = (grants calls (new_sliding_window size n)).1 in
      let total =
        ap (recent_count size now) k.parts ∙ recent_count-append size now k.gone (view s) in
      omega (
        arith,
        total,
        over-recent size now k.gone k.all_over,
        recent_count-le size now (view s),
        length-entries s.requests s.head 0 s.count,
        k.valid.count_in,
        k.same_max,
      ))

allow-after_window :
    (size n : ℕ) (calls : List (ℕ × ℕ)) (end now later : ℕ)
    → 0 < n
    → Clock 0 calls end
    → end + size ≤ now
    → (allow now later (grants calls (new_sliding_window size n)).1).0 ≡ true
allow-after_window size n calls end now later pos c h =
    (let k =
        grants-Kept size n 0 calls end [] (new_sliding_window size n) c (new-Kept size n pos) in
      let s = (grants calls (new_sliding_window size n)).1 in
      let (valid, same) = allow_refines now later s k.valid in
      let none_left : drop_expired s.window_size now (view s) ≡ [] =
        ap (λ z. drop_expired z now (view s)) k.same_size
        ∙ over-drop_expired size now (view s) (past-over size end now (view s) h k.all_past) in
      ap (λ x. x.0) same
      ∙ rw (none_left, lt→ltb 0 s.max_reqs (omega (arith, pos, k.same_max))) refl)

-- A new limiter with a positive `maxReqs`, called by a clock that does not go back, lets in at most
-- `maxReqs` requests in the window that ends at any time `end` from the last call on, and it lets in
-- a request that comes a whole window after `end` or later, where no other has come since.
pub grants-paced :
    (size n : ℕ) (calls : List (ℕ × ℕ)) (end now later : ℕ)
    → 0 < n
    → Clock 0 calls end
    → end + size ≤ now
    → (recent_count size end (grants calls (new_sliding_window size n)).0 ≤ n)
      × ((allow now later (grants calls (new_sliding_window size n)).1).0 ≡ true)
grants-paced size n calls end now later pos c h =
    (grants-bounded size n calls end pos c, allow-after_window size n calls end now later pos c h)
