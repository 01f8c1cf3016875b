-- ===== src/Memory/Summary/Condense.antt =====
-- What memory/summary.go keeps, over any store that is a sequence.
use simple_agent_framework.Prelude.{
  ℕ, suc, ◌-◌, ◌≤◌, ◌<◌, ◌≡◌, refl, ap, sym, ◌∙◌, leb, leb→le, leb_false→lt, if◌then◌else◌, Bool,
  true, false, List, [], ◌∷◌, ◌++◌, Option, none, some, length, take, drop, length-drop, arith,
  Bool-cases, Option-cases, some-injective, ◌⊎◌, inl, inr,
}
use simple_agent_framework.Prelude.Int.{pos, is_positive, pos_part}
use simple_agent_framework.Prelude.Text.{Text}
use simple_agent_framework.Errors.{Result, ok, err, Error, pure, ◌>>◌}
use simple_agent_framework.Model.{ChatMessage, Role, message}
use simple_agent_framework.Memory.Store.{IsSequence}
use simple_agent_framework.Memory.Summary.{
  SummaryMemory, Held, keep_n, summary_prompt, condense, summarize, add_round, add_rounds, add,
}

Result-cases : {A : Type 0} (r : Result A) → ((a : A) × (r ≡ ok a)) ⊎ ((e : Error) × (r ≡ err e))
Result-cases (ok a) = inl (a, refl)
Result-cases (err e) = inr (e, refl)

-- The answer of `Add`, and the summary and the messages behind it, of the old summary, all messages,
-- and what the model makes of the summary and the older messages.
unfoldable pub summed :
    ℕ
    → (Text → List ChatMessage → Result ChatMessage)
    → Text
    → List ChatMessage
    → Result (Unit {0}) × Text × List ChatMessage
summed n ask summary all =
    let split = length all - keep_n n in
    if leb (length all) n then (ok tt, summary, all) else elim (ask summary (take split all)) [
      | ok m ↦ (ok tt, m.content, drop split all)
      | err e ↦ (err e, summary, all)
    ]

-- What the model answers in the world `w`.
abbrev pub asked :
    {S W : Type 0} → SummaryMemory S W → W → Text → List ChatMessage → Result ChatMessage
asked m w summary head = (m.model (message Role.user (summary_prompt summary head) ∷ []) w).0

-- The call ended, with this answer, summary and messages.
abbrev pub Ends :
    {S W : Type 0}
    → (S → List ChatMessage)
    → Option (Result (Unit {0}) × Held S W)
    → Result (Unit {0}) × Text × List ChatMessage
    → Type 0
Ends view out end =
    (h : Held _ _) × (out ≡ some (end.0, h)) × (h.summary ≡ end.1) × (view h.stored ≡ end.2)

module _ {S W : Type 0} {view : S → List ChatMessage} (m : SummaryMemory S W)
    (sequence : IsSequence m.store view) where
  -- With few enough messages, there is no other round.
  round_few :
      (t : ℕ) (h : Held S W)
      → m.threshold ≡ pos t
      → length (view h.stored) ≤ t
      → add_round m none h ≡ (ok false, h)
  unfolding add_round
  round_few t h e few =
      (let fits : leb (length (view h.stored)) (pos_part m.threshold) ≡ true =
          ap (λ z. leb (length (view h.stored)) (pos_part z)) e ∙ ground (arith, few) in
        rw (sequence.len_ok h.stored, fits) refl)

  -- Too many messages: the model is asked about the older ones.
  round_excess :
      (t : ℕ) (h : Held S W)
      → m.threshold ≡ pos (suc t)
      → suc t < length (view h.stored)
      → let split = length (view h.stored) - keep_n (suc t) in
        add_round m none h
        ≡ (condense m none (take split (view h.stored)) (drop split (view h.stored)) >> pure true) h
  unfolding add_round summarize
  round_excess t h e many =
      (let over : leb (length (view h.stored)) (suc t) ≡ false = ground (arith, many) in
        let over' : leb (length (view h.stored)) (keep_n (suc t)) ≡ false = ground (arith, many) in
        rw (e, sequence.len_ok h.stored, over, sequence.list_ok h.stored, over, over') refl)

  -- A round that ends with an error, or that another round follows.
  failing_round :
      (n : ℕ) (h : Held S W) (out : Result Bool × Held S W) (x : Error)
      → add_round m none h ≡ out
      → out.0 ≡ err x
      → add_rounds (suc n) m none h ≡ some (err x, out.1)
  unfolding add_rounds
  failing_round n h out x round failed = rw (add_rounds, round, failed) refl

  going_round :
      (n : ℕ) (h : Held S W) (out : Result Bool × Held S W)
      → add_round m none h ≡ out
      → out.0 ≡ ok true
      → add_rounds (suc n) m none h ≡ add_rounds n m none out.1
  unfolding add_rounds
  going_round n h out round going = rw (add_rounds, round, going) refl

  condense_fails :
      (head tail : List ChatMessage) (h : Held S W) (x : Error)
      → asked m h.world h.summary head ≡ err x
      → let out = (condense m none head tail >> pure true) h in
        (out.0 ≡ err x) × (out.1.summary ≡ h.summary) × (out.1.stored ≡ h.stored)
  unfolding condense
  condense_fails head tail h x e = rw e (refl, refl, refl)

  condense_succeeds :
      (head tail : List ChatMessage) (h : Held S W) (a : ChatMessage)
      → asked m h.world h.summary head ≡ ok a
      → let out = (condense m none head tail >> pure true) h in
        (out.0 ≡ ok true) × (out.1.summary ≡ a.content) × (view out.1.stored ≡ tail)
  unfolding condense
  condense_succeeds head tail h a e =
      (let (replaced, left) = sequence.replace_ok tail h.stored in
        elim (Option-cases m.on_summary) [
          | inl silent ↦ rw (e, replaced, silent) (refl, refl, left)
          | inr (cb, heard) ↦ rw (e, replaced, heard) (refl, refl, left)
        ])

  few_rounds :
      (n t : ℕ) (h : Held S W)
      → m.threshold ≡ pos t
      → length (view h.stored) ≤ t
      → add_rounds (suc n) m none h ≡ some (ok tt, h)
  unfolding add_rounds
  few_rounds n t h e few = rw (add_rounds, round_few t h e few) refl

  -- With two rounds the loop ends.
  rounds-summed :
      (n t : ℕ) (h : Held S W)
      → m.threshold ≡ pos (suc t)
      → Ends view
          (add_rounds (suc (suc n)) m none h)
          (summed (suc t) (asked m h.world) h.summary (view h.stored))
  unfolding summed
  rounds-summed n t h e = elim (Bool-cases (leb (length (view h.stored)) (suc t))) [
    | inl few ↦ rw few (
      h,
      few_rounds (suc n) (suc t) h e (leb→le (length (view h.stored)) (suc t) few),
      refl,
      refl,
    )
    | inr many ↦
        (let over : suc t < length (view h.stored) =
            leb_false→lt (length (view h.stored)) (suc t) many in
          let round = round_excess t h e over in
          elim (Result-cases (asked m h.world h.summary older)) [
            | inr (x, answer) ↦
                (let (failed, summary, left) = condense_fails older newer h x answer in
                  rw (many, answer)
                    (_, failing_round (suc n) h _ x round failed, summary, ap view left))
            | inl (a, answer) ↦
                (let (going, summary, left) = condense_succeeds older newer h a answer in
                  let fits =
                    ap length left
                    ∙ length-drop (length (view h.stored) - keep_n (suc t)) (view h.stored) in
                  rw (many, answer)
                    (
                      _,
                      going_round (suc n) h _ round going
                          ∙ few_rounds n (suc t) _ e (omega (arith, fits, over)),
                      summary,
                      left,
                    ))
          ])
  ]
    where
      older : List ChatMessage
      older = take (length (view h.stored) - keep_n (suc t)) (view h.stored)

      newer : List ChatMessage
      newer = drop (length (view h.stored) - keep_n (suc t)) (view h.stored)

  -- Over a store that is a sequence, with a live context and a positive threshold, `Add` of some
  -- messages takes two rounds of its loop at most. Where all messages, the old ones and the new, are
  -- not more than the threshold, they are kept, and so is the summary; where they are more, the newest
  -- max(threshold / 2, 1) are kept, and the summary is what the model answers about the old summary
  -- and the older messages; where the model fails, `Add` returns its error and all is kept.
  pub add-summed :
      (n t : ℕ) (x : ChatMessage) (xs : List ChatMessage) (h : Held S W)
      → m.threshold ≡ pos (suc t)
      → Ends view
          (add (suc (suc n)) m none (x ∷ xs) h)
          (summed (suc t) (asked m h.world) h.summary (view h.stored ++ x ∷ xs))
  unfolding add
  add-summed n t x xs h e =
      (let (appended, now) = sequence.append_ok (x ∷ xs) h.stored in
        let s = (m.store.append none (x ∷ xs) h.stored).1 in
        let h' : Held S W = record h { stored = s } in
        let end = rounds-summed n t h' e in
        let positive : is_positive m.threshold ≡ true = ap is_positive e in
        rw (add, appended, positive, sym now) end)

-- What `Add` leaves is never more than the threshold, unless the model fails.
summed-length :
    (t : ℕ) (ask : Text → List ChatMessage → Result ChatMessage) (summary : Text)
    (all : List ChatMessage)
    → (summed (suc t) ask summary all).0 ≡ ok tt
    → length (summed (suc t) ask summary all).2 ≤ suc t
unfolding summed
summed-length t ask summary all = elim (Bool-cases (leb (length all) (suc t))) [
  | inl few ↦ rw few (λ done. leb→le (length all) (suc t) few)
  | inr many ↦ rw many (elim (Result-cases (ask summary (take (length all - keep_n (suc t)) all))) [
    | inl (a, answer) ↦
        rw answer
          (λ done. (let l = length-drop (length all - keep_n (suc t)) all in omega (arith, l)))
    | inr (x, answer) ↦ rw answer (λ failed. ground (arith, failed))
  ])
]

module _ {S W : Type 0} {view : S → List ChatMessage} (m : SummaryMemory S W)
    (sequence : IsSequence m.store view) where
  -- An `Add` without an error leaves at most `threshold` messages.
  add-threshold :
      (n t : ℕ) (x : ChatMessage) (xs : List ChatMessage) (h h' : Held S W)
      → m.threshold ≡ pos (suc t)
      → add (suc (suc n)) m none (x ∷ xs) h ≡ some (ok tt, h')
      → length (view h'.stored) ≤ suc t
  add-threshold n t x xs h h' e done =
      (let (k, ended, summary, left) = add-summed m sequence n t x xs h e in
        let same = some-injective _ (ok tt, h') (sym ended ∙ done) in
        let fine =
          summed-length t (asked m h.world) h.summary (view h.stored ++ x ∷ xs)
            (ap (λ p. p.0) same) in
        let size = ap length (sym (ap (λ p. view p.1.stored) same) ∙ left) in
        omega (arith, fine, size))
