-- ===== src/Agent/Session/Table.antt =====
-- agent/session.go: an identifier stands for one session.
use simple_agent_framework.Prelude.{◌≡◌, refl, ap, List, some, Option-cases, Bool-cases, inl, inr}
use simple_agent_framework.Prelude.Text.{Text, text_eq, text_eq_refl, text_eq_iff}
use simple_agent_framework.Agent.Session.{
  Session, Makings, Sessions, lookup_session, load_or_store, open_session, new_session,
}

module _ {M C K W : Type 0} where
  -- Whatever is stored stays stored.
  abbrev pub Keeps : Sessions M C K W → Sessions M C K W → Type 0
  Keeps m m' =
      (id : Text) (s : Session M C K W)
      → lookup_session id m ≡ some s
      → lookup_session id m' ≡ some s

  load_or_store-Keeps :
      (id : Text) (s : Session M C K W) (m : Sessions M C K W) → Keeps m (load_or_store id s m).1
  unfolding load_or_store lookup_session
  load_or_store-Keeps id s m id' s' found = elim (Option-cases (lookup_session id m)) [
    | inl absent ↦ elim (Bool-cases (text_eq id id')) [
      | inl same ↦
          absurd (cc (absent, found, ap (λ i. lookup_session i m) ((text_eq_iff id id').0 same)))
      | inr differs ↦ rw (load_or_store, absent) (rw differs found)
    ]
    | inr (old, present) ↦ rw (load_or_store, present) found
  ]

  load_or_store-stored :
      (id : Text) (s : Session M C K W) (m : Sessions M C K W)
      → lookup_session id (load_or_store id s m).1 ≡ some (load_or_store id s m).0
  unfolding load_or_store lookup_session
  load_or_store-stored id s m = elim (Option-cases (lookup_session id m)) [
    | inl absent ↦ rw (load_or_store, absent) (rw (lookup_session, text_eq_refl id) refl)
    | inr (old, present) ↦ rw (load_or_store, present) present
  ]

  -- Whatever other goroutines add to the table meanwhile, the session that `Session` returns is the one
  -- that is stored under its identifier when it returns, and every session that was stored before
  -- is stored still: an identifier never stands for two sessions.
  pub open_session-Keeps :
      (a : Makings M C K) (meanwhile : Sessions M C K W → Sessions M C K W) (id : Text)
      (opts : List (Session M C K W → Session M C K W)) (m : Sessions M C K W)
      → Keeps m (meanwhile m)
      → (lookup_session id (open_session a meanwhile id opts m).1
          ≡ some (open_session a meanwhile id opts m).0)
        × Keeps m (open_session a meanwhile id opts m).1
  unfolding open_session
  open_session-Keeps a meanwhile id opts m others = elim (Option-cases (lookup_session id m)) [
    | inl absent ↦
        (let s = new_session a id opts in
          rw (open_session, absent)
            (
              load_or_store-stored id s (meanwhile m),
              λ id' s' found. load_or_store-Keeps id s (meanwhile m) id' s' (others id' s' found),
            ))
    | inr (old, present) ↦ rw (open_session, present) (present, λ id' s' found. found)
  ]
