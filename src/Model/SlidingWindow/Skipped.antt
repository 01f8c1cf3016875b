-- ===== src/Model/SlidingWindow/Skipped.antt =====
-- model/rate_limiter.go: calls of the sliding window of which some are not made.
use simple_agent_framework.Prelude.{
  ℕ, ◌≤◌, ◌≡◌, refl, if◌then◌else◌, Bool, true, false, List, [], ◌∷◌, ◌++◌, arith,
}
use simple_agent_framework.Model.SlidingWindow.{SlidingWindow, allow}
use simple_agent_framework.Model.SlidingWindow.Rate.{grants, Clock}

-- The first list is the second without some of its items.
pub data Within : List (ℕ × ℕ) → List (ℕ × ℕ) → Type 0 where
  nothing : Within [] []
  kept : (x : ℕ × ℕ) (a b : List (ℕ × ℕ)) → Within a b → Within (x ∷ a) (x ∷ b)
  skipped : (x : ℕ × ℕ) (a b : List (ℕ × ℕ)) → Within a b → Within a (x ∷ b)

pub Within-append : (a b c d : List (ℕ × ℕ)) → Within a b → Within c d → Within (a ++ c) (b ++ d)
Within-append _ _ c d nothing w = w
Within-append _ _ c d (kept x a b v) w = kept x (a ++ c) (b ++ d) (Within-append a b c d v w)
Within-append _ _ c d (skipped x a b v) w = skipped x (a ++ c) (b ++ d) (Within-append a b c d v w)

pub Within-none : (l : List (ℕ × ℕ)) → Within [] l
Within-none [] = nothing
Within-none (x ∷ l) = skipped x [] l (Within-none l)

Clock-earlier :
    (start after : ℕ) (l : List (ℕ × ℕ)) (end : ℕ)
    → start ≤ after
    → Clock after l end
    → Clock start l end
Clock-earlier start after [] end h c = omega arith
Clock-earlier start after ((now, later) ∷ l) end h c = (omega (arith, h, c.0), c.1, c.2)

pub Clock-Within :
    (start : ℕ) (a b : List (ℕ × ℕ)) (end : ℕ) → Within a b → Clock start b end → Clock start a end
Clock-Within start _ _ end nothing c = c
Clock-Within start _ _ end (kept (now, later) a b w) c =
    (c.0, c.1, Clock-Within later a b end w c.2)
Clock-Within start _ _ end (skipped (now, later) a b w) c =
    Clock-earlier start later a end (omega (arith, c.0, c.1)) (Clock-Within later a b end w c.2)

pub grants-append :
    (a b : List (ℕ × ℕ)) (s : SlidingWindow)
    → grants (a ++ b) s
      ≡ ((grants a s).0 ++ (grants b (grants a s).1).0, (grants b (grants a s).1).1)
unfolding grants
grants-append [] b s = refl
grants-append ((now, later) ∷ a) b s =
    rw (grants-append a b (allow now later s).1) (joined (allow now later s).0)
  where
    first : List ℕ
    first = (grants a (allow now later s).1).0

    then_state : SlidingWindow
    then_state = (grants a (allow now later s).1).1

    joined :
        (ok : Bool)
        → ◌≡◌ {A = List ℕ × SlidingWindow}
            (
              if ok
                  then later ∷ (first ++ (grants b then_state).0)
                  else first ++ (grants b then_state).0,
              (grants b then_state).1,
            )
            (
              (if ok then later ∷ first else first) ++ (grants b then_state).0,
              (grants b then_state).1,
            )
    joined true = refl
    joined false = refl
