-- ===== src/Tests/Limits.antt =====
-- The retries, the limits, the counter, the merged results and the pieces of a stream on small inputs.
use simple_agent_framework.Prelude.{
  ℕ, suc, ◌*◌, ◌+◌, ◌/◌, ◌==◌, ◌≤◌, ◌≡◌, refl, arith, leb, ltb, true, List, [], ◌∷◌, ◌++◌, length,
  map, none, some,
}
use simple_agent_framework.Prelude.Int.{pos}
use simple_agent_framework.Prelude.Text.{Text, codes, text_eq, decimal}
use simple_agent_framework.Model.Retry.{
  ExponentialBackoff, do_retry, attempts, retry_with_backoff, do_retry-retry_with_backoff,
}
use simple_agent_framework.Errors.{Error, err, Exec}
use simple_agent_framework.Metrics.{
  Rates, SlidingWindowCounter, new_counter, add_sample, put_sample, cleanup_samples, expire_samples,
  rpm, tpm, rate,
}
use simple_agent_framework.Metrics.Samples.{drop_old}
use simple_agent_framework.Metrics.Queue.{IsValid, new-IsValid, view, push, total}
use simple_agent_framework.Metrics.Refine.{counter-refines}
use simple_agent_framework.Model.SlidingWindow.{
  allow, cleanup, expire, new_sliding_window, add_request,
}
use simple_agent_framework.Model.SlidingWindow.Passed.{recent_count}
use simple_agent_framework.Model.RateLimiter.{
  Floats, TokenRound, WindowRound, new_rate_limiter, new_token_bucket, allow_request, wait_request,
}
use simple_agent_framework.Model.RateLimiter.Served.{Request, allowing, waits, serve, serve-bounded}
use simple_agent_framework.Retriever.{Document}
use simple_agent_framework.Retriever.Hybrid.{Weights, RrfMerger, finished, sides, merge}
use simple_agent_framework.Retriever.Hybrid.Fused.{fused, merge-fused}
use simple_agent_framework.Provider.OpenAi.{StreamAnswer, StreamToolDelta, add_delta}
use simple_agent_framework.Provider.OpenAi.Interleaved.{pieces, together}
use mathlib.Core.List.{Perm}
use mathlib.Core.List.Perm

-- A world that counts calls, and a function that always fails.
abbrev backoff : ExponentialBackoff ℕ
backoff = record {
  base_delay = 1000;
  max_retries = pos 3;
  next_delay = λ d w. 2 * d;
  is_retryable = λ e. true;
  pause = λ d w. (none, w);
}

abbrev failing : Exec ℕ (Unit {0})
failing w = (err Error.model_unavailable, suc w)

do_retry-retry_with_backoff_example :
    ((do_retry backoff failing 0).1 ≤ attempts (pos 3) + 0)
    × ((x : Error) × ((retry_with_backoff backoff (λ w. none) 0).0 ≡ err x))
do_retry-retry_with_backoff_example =
    do_retry-retry_with_backoff backoff (λ w. w) failing (λ w. refl) (λ d w. refl) (λ w. none) 0

-- Whole numbers in place of floats.
abbrev rates : Rates ℕ
rates = record { nought = 0; per_minute = λ n size. n / size }

abbrev two_samples : SlidingWindowCounter
two_samples = add_sample 7 30 (add_sample 5 20 (new_counter 10 2))

two_samples-IsValid : IsValid two_samples
two_samples-IsValid =
    (counter-refines rates 7 30 (add_sample 5 20 (new_counter 10 2))
      (counter-refines rates 5 20 (new_counter 10 2) (new-IsValid 10 2 (omega arith))).0).0

-- A third sample takes the place of the oldest, also where it is recent.
third_sample : view (add_sample 9 40 two_samples) ≡ (7, 30) ∷ (9, 40) ∷ []
unfolding add_sample new_counter put_sample cleanup_samples expire_samples
third_sample = refl

counter-refines_example :
    let recent = drop_old two_samples.window_size 16 (view two_samples) in
    IsValid (add_sample 16 40 two_samples)
    × (view (add_sample 16 40 two_samples) ≡ push (length two_samples.calls) (16, 40) recent)
    × ((rpm rates 16 two_samples).0
        ≡ rate rates two_samples.window_size (length recent) (length recent))
    × ((tpm rates 16 two_samples).0
        ≡ rate rates two_samples.window_size (length recent) (total recent))
counter-refines_example = counter-refines rates 16 40 two_samples two_samples-IsValid

abbrev floats : Floats ℕ
floats = record {
  of_int = λ n. n;
  seconds = λ n. n;
  plus = λ a b. a + b;
  minus = λ a b. a;
  times = λ a b. a;
  at_least = λ a b. leb b a;
  above = λ a b. ltb b a;
}

abbrev wake : ℕ → TokenRound
wake t = record { context = none; at = t; slept = none }

abbrev look : ℕ → WindowRound
look t = record { context = none; now = t; later = t; slept = none }

-- Two calls, and a wait that has to sleep once.
abbrev requests : List Request
requests = allowing 1 1 1 ∷ allowing 2 2 2 ∷ waits (wake 3 ∷ []) (look 3 ∷ look 12 ∷ []) ∷ []

served_times : (serve floats requests (new_rate_limiter floats 5 1 10 1 0)).0 ≡ 1 ∷ 12 ∷ []
unfolding serve new_rate_limiter allow_request new_token_bucket allow cleanup expire
    new_sliding_window add_request wait_request
served_times = refl

serve-bounded_example :
    recent_count 10 12 (serve floats requests (new_rate_limiter floats 5 1 10 1 0)).0 ≤ 1
serve-bounded_example = serve-bounded floats 5 1 10 1 0 requests 12 (omega arith) (
  omega arith,
  omega arith,
  (omega arith, omega arith, (omega arith, omega arith, (omega arith, omega arith, omega arith))),
)

abbrev weights : Weights ℕ
weights = record {
  nought = 0;
  one = 6100;
  is_nought = λ n. n == 0;
  plus = λ a b. a + b;
  weighed = λ w n. w / n;
  is_finite = λ n. true;
}

abbrev doc : Text → ℕ → Document ℕ
doc id s = record { id = id; content = []; score = s; metadata = []; source = [] }

abbrev unset : RrfMerger ℕ
unset = record { k = pos 0; semantic_weight = 0; keyword_weight = 0 }

-- Found by both sides at the first place: both contributions count.
found_twice :
    merge weights
      (λ l. l)
      (λ l. l)
      unset
      (doc (codes "a") 9 ∷ [])
      (doc (codes "a") 8 ∷ doc [] 7 ∷ [])
    ≡ doc (codes "a") 200 ∷ doc (codes "kw:1") 98 ∷ []
unfolding merge text_eq decimal
found_twice = refl

merge-fused_example :
    let (first, second) =
      sides weights unset (doc (codes "a") 9 ∷ []) (doc (codes "a") 8 ∷ doc [] 7 ∷ []) in
    Perm
      (merge weights
        (λ l. l)
        (λ l. l)
        unset
        (doc (codes "a") 9 ∷ [])
        (doc (codes "a") 8 ∷ doc [] 7 ∷ []))
      (map (finished weights) (fused weights [] (first ++ second)))
merge-fused_example =
    merge-fused weights (λ l. l) (λ l. l) unset (doc (codes "a") 9 ∷ [])
      (doc (codes "a") 8 ∷ doc [] 7 ∷ []) Perm.refl Perm.refl

abbrev piece : ℕ → Text → Text → StreamToolDelta
piece i name arguments = record { index = pos i; id = []; function = some (name, arguments) }

abbrev chunk : List StreamToolDelta → StreamAnswer
chunk calls = record { choices = record { content = []; tool_calls = calls } ∷ []; usage = none }

-- Two calls in turns, the second first.
abbrev in_turns : List StreamAnswer
in_turns =
    chunk (piece 1 (codes "b") (codes "{") ∷ [])
    ∷ chunk (piece 0 (codes "a") (codes "{}") ∷ piece 1 [] (codes "}") ∷ [])
    ∷ []

second_call :
    together (pos 1) (pieces in_turns) none
    ≡ some (record { id = []; name = codes "b"; arg_chunks = codes "{" ∷ codes "}" ∷ [] })
unfolding add_delta
second_call = refl
