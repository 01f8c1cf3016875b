-- ===== src/Agent/Run/Safety.antt =====
-- agent/loop.go never reads through a nil pending action.
use simple_agent_framework.Prelude.{
  ℕ, zero, suc, ◌<◌, ◌≢◌, Option, some, arith, Option-cases, inl, inr,
}
use simple_agent_framework.Planner.{Planner}
use simple_agent_framework.Agent.LoopDetector.{LoopDetector}
use simple_agent_framework.Agent.Loop.State.{Env, Vars, Next, go, stop, Reply, crash}
use simple_agent_framework.Agent.Loop.Effects.{effects}
use simple_agent_framework.Agent.Run.{start, round, rounds, run_loop, follow}
use simple_agent_framework.Agent.Run.Always.{Good}
use simple_agent_framework.Agent.Run.Rank.{Inv}
use simple_agent_framework.Agent.Run.Rounds.{dispatch-keeps, round-Always}

module _ {W : Type 0} (env : Env W) where
  -- The loop starts in the invariant.
  pub start-Inv :
      (d : LoopDetector) (auto_retry : ℕ) → 0 < d.threshold → Inv env (start d auto_retry)
  unfolding start
  start-Inv d auto_retry h = ground arith

  follow-safe :
      (again : Vars → W → Option (Reply × LoopDetector) × W) (x : Next) (w : W) (d : LoopDetector)
      → ((v : Vars) → Inv env v → (again v w).0 ≢ some (crash, d))
      → Good (Inv env) x
      → (follow again x w).0 ≢ some (crash, d)
  unfolding follow
  follow-safe again (go v) w d ih h = ih v h
  follow-safe again (stop (Reply.result r) d') w d ih h = λ e. cc
  follow-safe again (stop (Reply.abort x) d') w d ih h = λ e. cc
  follow-safe again (stop crash d') w d ih h = absurd h

  rounds-safe :
      (plan : Planner W) (n : ℕ) (v : Vars) (w : W) (d : LoopDetector)
      → Inv env v
      → (rounds env plan n v w).0 ≢ some (crash, d)
  unfolding rounds
  rounds-safe plan zero v w d i = λ e. cc
  rounds-safe plan (suc n) v w d i =
      follow-safe (rounds env plan n) (round env plan v w).0 (round env plan v w).1 d
        (λ v' i'. rounds-safe plan n v' (round env plan v w).1 d i')
        ((round-Always env plan v (dispatch-keeps env plan v i)).at w)

  -- Whatever models, tools, stores, people and clocks do, in either mode and however many rounds
  -- are run, the loop never dereferences a nil pending action or a nil plan-and-solve planner,
  -- provided that the session's detector has a positive threshold.
  pub run_loop_safe :
      (d : LoopDetector) (auto_retry n : ℕ) (w : W) (d' : LoopDetector)
      → 0 < d.threshold
      → (run_loop env d auto_retry n w).0 ≢ some (crash, d')
  unfolding run_loop effects
  run_loop_safe d auto_retry n w d' h = elim (Option-cases env.planner) [
    | inl missing ↦ simp missing (λ e. cc)
    | inr (plan, given) ↦
        simp given (rounds-safe plan n (start d auto_retry) w d' (start-Inv d auto_retry h))
  ]
