-- ===== src/Agent/Run/Termination.antt =====
-- agent/loop.go comes to an end.
use simple_agent_framework.Prelude.{
  ℕ, zero, suc, ◌+◌, ◌*◌, ◌<◌, ◌≡◌, refl, Option, some, arith, Option-cases, inl, inr, ap, ◌-◌,
}
use simple_agent_framework.Planner.{Planner}
use simple_agent_framework.Agent.LoopDetector.{LoopDetector}
use simple_agent_framework.Agent.Loop.State.{Env, Vars, Next, go, stop, Reply}
use simple_agent_framework.Agent.Loop.Effects.{effects}
use simple_agent_framework.Agent.Run.{start, round, rounds, run_loop, follow}
use simple_agent_framework.Agent.Run.Always.{Good}
use simple_agent_framework.Agent.Run.Rank.{Inv, rank, budget}
use simple_agent_framework.Agent.Run.Asking.{Falls}
use simple_agent_framework.Agent.Run.Rounds.{NoReview, dispatch-Falls, round-Always}
use simple_agent_framework.Agent.Run.Safety.{start-Inv}

module _ {W : Type 0} (env : Env W) where
  -- There is a reply.
  abbrev Returns : Option (Reply × LoopDetector) → Type 0
  Returns r = (x : Reply × LoopDetector) × (r ≡ some x)

  follow-Returns :
      (again : Vars → W → Option (Reply × LoopDetector) × W) (v : Vars) (x : Next) (w : W)
      → ((v' : Vars) → Falls env v v' → Returns (again v' w).0)
      → Good (Falls env v) x
      → Returns (follow again x w).0
  unfolding follow
  follow-Returns again v (go v') w ih h = ih v' h
  follow-Returns again v (stop r d) w ih h = ((r, d), refl)

  rounds-return :
      (plan : Planner W) (n : ℕ) (v : Vars) (w : W)
      → Inv env v
      → NoReview env
      → rank env v < n
      → Returns (rounds env plan n v w).0
  unfolding rounds
  rounds-return plan zero v w i quiet h = absurd (omega arith)
  rounds-return plan (suc n) v w i quiet h =
      follow-Returns (rounds env plan n) v (round env plan v w).0 (round env plan v w).1
        (λ v' f.
          rounds-return plan n v' (round env plan v w).1 f.0 quiet
            (let less : rank env v' < rank env v = f.1 in omega arith))
        ((round-Always env plan v (dispatch-Falls env plan v i quiet)).at w)

  start-rank :
      (d : LoopDetector) (auto_retry : ℕ)
      → rank env (start d auto_retry) ≡ suc env.max_iterations * (2 * d.threshold + 8) + 3
  unfolding start budget
  start-rank d auto_retry =
      ap (λ n. n * (2 * d.threshold + 8) + 3)
        (let h : suc env.max_iterations - 0 ≡ suc env.max_iterations = omega arith in h)

  -- In ReAct mode, or with no human to review plans, the loop returns: whatever models, tools,
  -- stores, evaluators and people answer, `(maxIterations + 1) * (2 * threshold + 8) + 4` rounds
  -- are enough, of a session whose detector has a positive threshold.
  pub run_loop_returns :
      (d : LoopDetector) (auto_retry n : ℕ) (w : W)
      → 0 < d.threshold
      → NoReview env
      → suc env.max_iterations * (2 * d.threshold + 8) + 3 < n
      → (x : Reply × LoopDetector) × ((run_loop env d auto_retry n w).0 ≡ some x)
  unfolding run_loop effects
  run_loop_returns d auto_retry n w h quiet enough = elim (Option-cases env.planner) [
    | inl missing ↦ simp missing ((_, refl))
    | inr (plan, given) ↦ simp given (
        rounds-return plan n (start d auto_retry) w (start-Inv env d auto_retry h) quiet
          (let r = start-rank d auto_retry in omega arith))
  ]
