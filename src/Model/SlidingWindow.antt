-- ===== src/Model/SlidingWindow.antt =====
-- model/rate_limiter.go: at most so many requests in a window of time.
pub mod Entries
pub mod Queue
pub mod Passed
pub mod Rate
pub mod Skipped
use simple_agent_framework.Prelude.{
  ℕ, suc, zero, ◌+◌, ◌-◌, ◌%◌, ltb, if◌then◌else◌, Bool, true, false, List, [], ◌∷◌, length, set,
  get_or, replicate,
}

-- `SlidingWindow`, with times and sizes in nanoseconds; the zero time is 0. The mutex makes each
-- method one step.
pub record SlidingWindow : Type 0 where
  pub window_size : ℕ
  pub max_reqs : ℕ
  pub requests : List ℕ
  pub head : ℕ
  pub count : ℕ

unfoldable pub new_sliding_window : ℕ → ℕ → SlidingWindow
new_sliding_window window_size max_reqs = record {
  window_size = window_size;
  max_reqs = max_reqs;
  requests = replicate max_reqs 0;
  head = 0;
  count = 0;
}

-- `t.After(now.Add(-windowSize))`
abbrev pub is_recent : ℕ → ℕ → ℕ → Bool
is_recent size now t = ltb now (t + size)

-- The loop of `cleanup` from the offset `i` on, with `n` entries left: the buffer behind it, and how
-- many entries have expired.
unfoldable pub expire : ℕ → ℕ → ℕ → ℕ → ℕ → List ℕ → List ℕ × ℕ
expire size now head i zero buf = (buf, 0)
expire size now head i (suc n) buf =
    let at = (head + i) % length buf in
    let (cleared, more) = expire size now head (suc i) n (set buf at 0) in
    if is_recent size now (get_or buf at 0) then (buf, 0) else (cleared, suc more)

unfoldable pub cleanup : ℕ → SlidingWindow → SlidingWindow
cleanup now s =
    let (buf, expired) = expire s.window_size now s.head 0 s.count s.requests in
    if ltb 0 expired
    then record s {
      requests = buf;
      head = (s.head + expired) % length s.requests;
      count = s.count - expired;
    }
    else s

unfoldable pub add_request : ℕ → SlidingWindow → SlidingWindow
add_request t s =
    let buf = set s.requests ((s.head + s.count) % length s.requests) t in
    if ltb s.count (length s.requests)
    then record s { requests = buf; count = suc s.count }
    else record s { requests = buf; head = suc s.head % length s.requests }

-- `Allow`, of the times that its two calls of `time.Now` return.
unfoldable pub allow : ℕ → ℕ → SlidingWindow → Bool × SlidingWindow
allow now later s =
    let c = cleanup now s in
    if ltb c.count c.max_reqs then (true, add_request later c) else (false, c)

-- `Count`
unfoldable pub count_now : ℕ → SlidingWindow → ℕ × SlidingWindow
count_now now s = let c = cleanup now s in (c.count, c)
