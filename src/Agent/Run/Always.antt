-- ===== src/Agent/Run/Always.antt =====
-- What holds of the outcome of a handler whatever the world does: a rule for each way in which the
-- handlers of agent/loop.go are put together.
use simple_agent_framework.Prelude.{Bool, true, false, if◌then◌else◌, Option, none, some, ◌≡◌, refl}
use simple_agent_framework.Prelude.Text.{Text}
use simple_agent_framework.Errors.{Error, Result, ok, err}
use simple_agent_framework.Agent.Loop.State.{Env, Vars, Next, go, stop, Reply, crash}
use simple_agent_framework.Agent.Loop.Effects.{
  M, ◌>>=◌, ◌>>◌, pure, on_result, on_option, error_result, fail, emit,
}

pub record Always {W : Type 0} (P : Next → Type 0) (m : M W Next) : Type 0 where
  pub at : (w : W) → P (m w).0

module _ {W : Type 0} {P : Next → Type 0} where
  pub Always-pure : (n : Next) → P n → Always {W = W} P (pure n)
  unfolding pure
  Always-pure n h = record { at = λ w. h }

  pub Always-then : (m : M W (Unit {0})) (k : M W Next) → Always P k → Always P (m >> k)
  unfolding ◌>>◌
  Always-then m k h = record { at = λ w. h.at (m w).1 }

  pub Always-fail :
      (env : Env W) (v : Vars) (at : Text) (e : Error)
      → P (error_result v e)
      → Always P (fail env v at e)
  unfolding fail
  Always-fail env v at e h = Always-then (emit env _) (pure (error_result v e)) (Always-pure _ h)

  pub Always-if :
      (b : Bool) (m n : M W Next)
      → (b ≡ true → Always P m)
      → (b ≡ false → Always P n)
      → Always P (if b then m else n)
  Always-if true m n hm hn = hm refl
  Always-if false m n hm hn = hn refl

module _ {W A : Type 0} {P : Next → Type 0} where
  pub Always-bind : (m : M W A) (f : A → M W Next) → ((a : A) → Always P (f a)) → Always P (m >>= f)
  unfolding ◌>>=◌
  Always-bind m f h = record { at = λ w. (h (m w).0).at (m w).1 }

  -- As above, where the answer is one that the call gives in some state of the world.
  pub Always-seen :
      (m : M W A) (f : A → M W Next) → ((w : W) → Always P (f (m w).0)) → Always P (m >>= f)
  unfolding ◌>>=◌
  Always-seen m f h = record { at = λ w. (h w).at (m w).1 }

  pub Always-on_result :
      (r : Result A) (f : Error → M W Next) (g : A → M W Next)
      → ((e : Error) → Always P (f e))
      → ((a : A) → Always P (g a))
      → Always P (on_result r f g)
  unfolding on_result
  Always-on_result (ok a) f g hf hg = hg a
  Always-on_result (err e) f g hf hg = hf e

  -- As above, where the branch knows the result.
  pub Always-answered :
      (r : Result A) (f : Error → M W Next) (g : A → M W Next)
      → ((e : Error) → Always P (f e))
      → ((a : A) → r ≡ ok a → Always P (g a))
      → Always P (on_result r f g)
  unfolding on_result
  Always-answered (ok a) f g hf hg = hg a refl
  Always-answered (err e) f g hf hg = hf e

  pub Always-on_option :
      (o : Option A) (n : M W Next) (f : A → M W Next)
      → (o ≡ none → Always P n)
      → ((a : A) → o ≡ some a → Always P (f a))
      → Always P (on_option o n f)
  unfolding on_option
  Always-on_option none n f hn hf = hn refl
  Always-on_option (some a) n f hn hf = hf a refl

pub ruleset always_rules = (
  Always-pure, Always-then, Always-fail, Always-if, Always-bind, Always-on_result, Always-on_option,
)

-- The loop goes on with variables of which `P` holds, or stops without the dereference of a nil
-- pointer.
abbrev pub Good : (Vars → Type 0) → Next → Type 0
Good P (go v) = P v
Good P (stop crash d) = ⊥
Good P (stop r d) = Unit

pub Good-map : {P Q : Vars → Type 0} → ((v : Vars) → P v → Q v) → (n : Next) → Good P n → Good Q n
Good-map f (go v) h = f v h
Good-map f (stop (Reply.result r) d) h = tt
Good-map f (stop (Reply.abort e) d) h = tt
Good-map f (stop crash d) h = h

pub Always-map :
    {W : Type 0} {P Q : Vars → Type 0} {m : M W Next}
    → ((v : Vars) → P v → Q v)
    → Always (Good P) m
    → Always (Good Q) m
Always-map {m = m} f h = record { at = λ w. Good-map f (m w).0 (h.at w) }
