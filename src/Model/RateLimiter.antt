-- ===== src/Model/RateLimiter.antt =====
-- model/rate_limiter.go: the token bucket, the waits, and the limiter that combines both.
pub mod Served
use simple_agent_framework.Prelude.{
  ℕ, ◌-◌, if◌then◌else◌, Bool, true, false, List, [], ◌∷◌, ◌++◌, Option, none, some,
}
use simple_agent_framework.Errors.{Error}
use simple_agent_framework.Model.SlidingWindow.{SlidingWindow, new_sliding_window, allow}

-- What the bucket computes in `float64`, over any floats.
pub record Floats (F : Type 0) : Type 0 where
  pub of_int : ℕ → F
  pub seconds : ℕ → F
  pub plus : F → F → F
  pub minus : F → F → F
  pub times : F → F → F
  pub at_least : F → F → Bool
  pub above : F → F → Bool

-- `TokenBucket`. Times are nanoseconds of a clock that does not go back.
pub record TokenBucket (F : Type 0) : Type 0 where
  pub capacity : F
  pub tokens : F
  pub refill_rate : F
  pub last_refill : ℕ

-- A round of `TokenBucket.Wait`: what the context is at its start, the time that it reads, and what
-- ends its sleep where it has to: the context, or nothing.
pub record TokenRound : Type 0 where
  pub context : Option Error
  pub at : ℕ
  pub slept : Option Error

-- A round of `SlidingWindow.Wait`, with the two times that it reads.
pub record WindowRound : Type 0 where
  pub context : Option Error
  pub now : ℕ
  pub later : ℕ
  pub slept : Option Error

-- How a wait stands after some rounds: it sleeps on; it has returned an error; or it has returned
-- nil, of a request that counts from a time.
pub data Waited : Type 0 where
  waiting : Waited
  stopped : Error → Waited
  let_in : ℕ → Waited

-- `SlidingWindow.Wait`: under its lock a round does what `Allow` does.
unfoldable pub wait_window : List WindowRound → SlidingWindow → Waited × SlidingWindow
wait_window [] s = (waiting, s)
wait_window (r ∷ rs) s =
    let (entered, s') = allow r.now r.later s in
    let rest = wait_window rs s' in
    elim r.context [
      | some e ↦ (stopped e, s)
      | none ↦
          if entered
          then (let_in r.later, s')
          else (elim r.slept [ some e ↦ (stopped e, s') | none ↦ rest ])
    ]

module _ {F : Type 0} (f : Floats F) where
  unfoldable pub new_token_bucket : ℕ → F → ℕ → TokenBucket F
  new_token_bucket capacity refill_rate now = record {
    capacity = f.of_int capacity;
    tokens = f.of_int capacity;
    refill_rate = refill_rate;
    last_refill = now;
  }

  unfoldable pub refill : ℕ → TokenBucket F → TokenBucket F
  refill now t =
      let filled = f.plus t.tokens (f.times (f.seconds (now - t.last_refill)) t.refill_rate) in
      record t {
        tokens = (if f.above filled t.capacity then t.capacity else filled);
        last_refill = now;
      }

  -- `TokenBucket.Allow`
  unfoldable pub take_token : ℕ → TokenBucket F → Bool × TokenBucket F
  unfolding refill
  take_token now t =
      let r = refill now t in
      if f.at_least r.tokens (f.of_int 1)
      then (true, record r { tokens = f.minus r.tokens (f.of_int 1) })
      else (false, r)

  -- `TokenBucket.Wait`: under its lock a round does what `Allow` does.
  unfoldable pub wait_token : List TokenRound → TokenBucket F → Waited × TokenBucket F
  unfolding take_token
  wait_token [] t = (waiting, t)
  wait_token (r ∷ rs) t =
      let (taken, t') = take_token r.at t in
      let rest = wait_token rs t' in
      elim r.context [
        | some e ↦ (stopped e, t)
        | none ↦
            if taken
            then (let_in r.at, t')
            else (elim r.slept [ some e ↦ (stopped e, t') | none ↦ rest ])
      ]

  pub record RateLimiter : Type 0 where
    pub token_bucket : TokenBucket F
    pub sliding_window : SlidingWindow

  unfoldable pub new_rate_limiter : ℕ → F → ℕ → ℕ → ℕ → RateLimiter
  new_rate_limiter token_capacity tokens_per_second window_size max_in_window now = record {
    token_bucket = new_token_bucket token_capacity tokens_per_second now;
    sliding_window = new_sliding_window window_size max_in_window;
  }

  -- `RateLimiter.Allow`, of the times that the bucket and the window read: the window is asked only
  -- where the bucket has given a token, which is spent also where the window then refuses.
  unfoldable pub allow_request : ℕ → ℕ → ℕ → RateLimiter → Bool × RateLimiter
  unfolding take_token
  allow_request at now later r =
      let (taken, t) = take_token at r.token_bucket in
      let (entered, s) = allow now later r.sliding_window in
      if taken
      then (entered, record { token_bucket = t; sliding_window = s })
      else (false, record r { token_bucket = t })

  -- `RateLimiter.Wait`
  unfoldable pub wait_request :
      List TokenRound → List WindowRound → RateLimiter → Waited × RateLimiter
  unfolding wait_token wait_window
  wait_request ts ws r =
      let (first, t) = wait_token ts r.token_bucket in
      let (second, s) = wait_window ws r.sliding_window in
      elim first [
        | waiting ↦ (waiting, record r { token_bucket = t })
        | stopped e ↦ (stopped e, record r { token_bucket = t })
        | let_in at ↦ (second, record { token_bucket = t; sliding_window = s })
      ]
