-- ===== src/Metrics.antt =====
-- metrics/metrics.go: the calls of a model in a window of time, and their tokens.
pub mod Samples
pub mod Queue
pub mod Refine
use simple_agent_framework.Prelude.{
  ℕ, suc, zero, ◌+◌, ◌-◌, ◌%◌, ◌==◌, ltb, if◌then◌else◌, List, [], ◌∷◌, length, set, get_or,
  replicate,
}
use simple_agent_framework.Prelude.Text.{Text}
use simple_agent_framework.Model.SlidingWindow.{is_recent}

-- `SlidingWindowCounter`, with times and sizes in nanoseconds. The mutex makes each method one step.
pub record SlidingWindowCounter : Type 0 where
  pub window_size : ℕ
  pub calls : List ℕ
  pub tokens : List ℕ
  pub head : ℕ
  pub count : ℕ

unfoldable pub new_counter : ℕ → ℕ → SlidingWindowCounter
new_counter window_size max_samples = record {
  window_size = window_size;
  calls = replicate max_samples 0;
  tokens = replicate max_samples 0;
  head = 0;
  count = 0;
}

-- The loop of `cleanup` from the offset `i` on, with `n` entries left: both buffers behind it, and how
-- many entries have expired.
unfoldable pub expire_samples : ℕ → ℕ → ℕ → ℕ → ℕ → List ℕ → List ℕ → List ℕ × List ℕ × ℕ
expire_samples size now head i zero calls tokens = (calls, tokens, 0)
expire_samples size now head i (suc n) calls tokens =
    let at = (head + i) % length calls in
    let (calls', tokens', more) =
      expire_samples size now head (suc i) n (set calls at 0) (set tokens at 0) in
    if is_recent size now (get_or calls at 0)
    then (calls, tokens, 0)
    else (calls', tokens', suc more)

unfoldable pub cleanup_samples : ℕ → SlidingWindowCounter → SlidingWindowCounter
cleanup_samples now s =
    let (calls, tokens, expired) =
      expire_samples s.window_size now s.head 0 s.count s.calls s.tokens in
    if ltb 0 expired
    then record s {
      calls = calls;
      tokens = tokens;
      head = (s.head + expired) % length s.calls;
      count = s.count - expired;
    }
    else s

-- What `Add` does behind `cleanup`: a full buffer loses its oldest entry.
unfoldable pub put_sample : ℕ → ℕ → SlidingWindowCounter → SlidingWindowCounter
put_sample now token_count s =
    let at = (s.head + s.count) % length s.calls in
    let calls = set s.calls at now in
    let tokens = set s.tokens at token_count in
    if ltb s.count (length s.calls)
    then record s { calls = calls; tokens = tokens; count = suc s.count }
    else record s { calls = calls; tokens = tokens; head = suc s.head % length s.calls }

unfoldable pub add_sample : ℕ → ℕ → SlidingWindowCounter → SlidingWindowCounter
add_sample now token_count s = put_sample now token_count (cleanup_samples now s)

-- The sum of `TPM`, from the offset `i` on, of `n` entries.
unfoldable pub sum_tokens : ℕ → ℕ → ℕ → List ℕ → ℕ → ℕ
sum_tokens head cap i tokens zero = 0
sum_tokens head cap i tokens (suc n) =
    get_or tokens ((head + i) % cap) 0 + sum_tokens head cap (suc i) tokens n

-- `float64(n) / windowSeconds * 60`, or 0, over any floats.
pub record Rates (F : Type 0) : Type 0 where
  pub nought : F
  pub per_minute : ℕ → ℕ → F

abbrev pub rate : {F : Type 0} → Rates F → ℕ → ℕ → ℕ → F
rate r size count total =
    if count == 0 then r.nought else if size == 0 then r.nought else r.per_minute total size

module _ {F : Type 0} (r : Rates F) where
  unfoldable pub rpm : ℕ → SlidingWindowCounter → F × SlidingWindowCounter
  rpm now s = let c = cleanup_samples now s in (rate r c.window_size c.count c.count, c)

  unfoldable pub tpm : ℕ → SlidingWindowCounter → F × SlidingWindowCounter
  unfolding sum_tokens
  tpm now s =
      let c = cleanup_samples now s in
      (rate r c.window_size c.count (sum_tokens c.head (length c.calls) 0 c.tokens c.count), c)

  -- `ModelCallMetric`, but for its duration.
  pub record ModelCallMetric : Type 0 where
    pub timestamp : ℕ
    pub model_name : Text
    pub prompt_tokens : ℕ
    pub completion_tokens : ℕ
    pub total_tokens : ℕ
    pub calls_per_minute : F
    pub tokens_per_minute : F
