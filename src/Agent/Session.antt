-- ===== src/Agent/Session.antt =====
-- agent/session.go: a session's run, its snapshots, and the agent's table of sessions.
pub mod Resume
pub mod Suspended
pub mod Table
use simple_agent_framework.Prelude.{
  ℕ, Bool, true, false, not, ◌&&◌, List, [], ◌∷◌, Option, none, some, if◌then◌else◌,
}
use simple_agent_framework.Prelude.Int.{ℤ}
use simple_agent_framework.Prelude.Text.{Text, is_empty, text_eq}
use simple_agent_framework.Errors.{Error, Result, Exec, ok, err, Context}
use simple_agent_framework.Model.{ChatMessage, Role, message}
use simple_agent_framework.Agent.LoopDetector.{LoopDetector, new_loop_detector}
use simple_agent_framework.Agent.Loop.State.{AgentResult, AgentSnapshot, Env, Reply, SessionMemory}
use simple_agent_framework.Agent.Run.{run_loop}

-- `AgentSnapshot`, the run that it is of beside the rest.
pub record RunSnapshot : Type 0 where
  pub run_id : Text
  pub snapshot : AgentSnapshot

-- The interface `CheckpointStore`; a snapshot may be nil.
pub record CheckpointStore (W : Type 0) : Type 0 where
  pub save : Context → Text → Option RunSnapshot → Exec W (Unit {0})
  pub load : Context → Text → Exec W (Option RunSnapshot)
  pub delete : Context → Text → Exec W (Unit {0})

-- The interval and the time of the last save are never read.
pub record SessionCheckpointConfig (W : Type 0) : Type 0 where
  pub store : Option (CheckpointStore W)
  pub run_id : Text

-- `Session`, with memories in M, content stores in C and compressors in K; the agent is an argument of
-- what needs it.
pub record Session (M C K W : Type 0) : Type 0 where
  pub id : Text
  pub memory : M
  pub loop_detector : LoopDetector
  pub content_store : C
  pub compressor : K
  pub checkpoint : Option (SessionCheckpointConfig W)

-- What an agent makes a session of: its factories, threshold and compressor.
pub record Makings (M C K : Type 0) : Type 0 where
  pub memory_factory : Text → M
  pub content_store_factory : Text → C
  pub compressor : K
  pub loop_detection_threshold : ℤ

-- The snapshot is the caller's, and is written to.
unfoldable pub with_run_id : Text → RunSnapshot → RunSnapshot
with_run_id run snap = if is_empty snap.run_id then record snap { run_id = run } else snap

module _ {W : Type 0} where
  abbrev store_of : Option (SessionCheckpointConfig W) → Option (CheckpointStore W)
  store_of none = none
  store_of (some c) = c.store

  abbrev run_of : Option (SessionCheckpointConfig W) → Text
  run_of none = []
  run_of (some c) = c.run_id

  abbrev saved_to :
      Option (CheckpointStore W)
      → Context
      → Text
      → Option RunSnapshot
      → W
      → Result (Unit {0}) × Option RunSnapshot × W
  saved_to none ctx run snap w = (ok tt, snap, w)
  saved_to (some store) ctx run none w = (ok tt, none, w)
  saved_to (some store) ctx run (some snap) w =
      let snap' = with_run_id run snap in
      let (r, w') = store.save ctx snap'.run_id (some snap') w in (r, some snap', w')

  abbrev loaded_from : Option (CheckpointStore W) → Context → Text → Exec W (Option RunSnapshot)
  loaded_from none ctx run w = (ok none, w)
  loaded_from (some store) ctx run w = store.load ctx run w

module _ {M C K W : Type 0} where
  unfoldable pub get_checkpoint_store : Session M C K W → Option (CheckpointStore W)
  get_checkpoint_store s = store_of s.checkpoint

  unfoldable pub get_run_id : Session M C K W → Text
  get_run_id s = run_of s.checkpoint

  -- `SaveCheckpoint` and `Suspend`: the error, the caller's snapshot after the call, and the world.
  unfoldable pub save_checkpoint :
      Session M C K W
      → Context
      → Option RunSnapshot
      → W
      → Result (Unit {0}) × Option RunSnapshot × W
  save_checkpoint s ctx snap = saved_to (get_checkpoint_store s) ctx (get_run_id s) snap

  -- `LoadCheckpoint` and `Resume`
  unfoldable pub load_checkpoint : Session M C K W → Context → Text → Exec W (Option RunSnapshot)
  load_checkpoint s ctx run = loaded_from (get_checkpoint_store s) ctx run

  -- `WithCheckpoint`, of the identifier that `generateRunID` makes.
  unfoldable pub with_checkpoint :
      Option (CheckpointStore W) → Text → Session M C K W → Session M C K W
  with_checkpoint store run s = record s {
    checkpoint = some (record { store = store; run_id = run });
  }

  abbrev applied : List (Session M C K W → Session M C K W) → Session M C K W → Session M C K W
  applied [] s = s
  applied (o ∷ os) s = applied os (o s)

  -- `newSessionInternal`
  unfoldable pub new_session :
      Makings M C K → Text → List (Session M C K W → Session M C K W) → Session M C K W
  new_session a id opts = applied opts (record {
    id = id;
    memory = a.memory_factory id;
    loop_detector = new_loop_detector a.loop_detection_threshold;
    content_store = a.content_store_factory id;
    compressor = a.compressor;
    checkpoint = none;
  })

-- `a.sessions`, a map that many goroutines share.
abbrev pub Sessions : Type 0 → Type 0 → Type 0 → Type 0 → Type 0
Sessions M C K W = List (Text × Session M C K W)

module _ {M C K W : Type 0} where
  unfoldable pub lookup_session : Text → Sessions M C K W → Option (Session M C K W)
  lookup_session id [] = none
  lookup_session id ((k, s) ∷ rest) = if text_eq k id then some s else lookup_session id rest

  -- `LoadOrStore`: what is stored under the identifier, or else the given session, stored now.
  unfoldable pub load_or_store :
      Text → Session M C K W → Sessions M C K W → Session M C K W × Sessions M C K W
  load_or_store id s m = elim (lookup_session id m) [
    | some old ↦ (old, m)
    | none ↦ (s, (id, s) ∷ m)
  ]

  -- `Agent.Session`; `meanwhile` is what other goroutines do to the map between the two accesses.
  unfoldable pub open_session :
      Makings M C K
      → (Sessions M C K W → Sessions M C K W)
      → Text
      → List (Session M C K W → Session M C K W)
      → Sessions M C K W
      → Session M C K W × Sessions M C K W
  open_session a meanwhile id opts m = elim (lookup_session id m) [
    | some s ↦ (s, m)
    | none ↦ load_or_store id (new_session a id opts) (meanwhile m)
  ]

-- What `Run` returns: the error of `Add`, or what the loop returns with the identifier of the session.
pub data RunReply : Type 0 where
  not_added : Error → RunReply
  replied : Text → Reply → RunReply

abbrev run_reply : Text → Option (Reply × LoopDetector) → Option (RunReply × LoopDetector)
run_reply id none = none
run_reply id (some (r, d)) = some (replied id r, d)

abbrev after_add :
    {W : Type 0}
    → Result (Unit {0})
    → Text
    → LoopDetector
    → (W → Option (Reply × LoopDetector) × W)
    → W
    → Option (RunReply × LoopDetector) × W
after_add (err e) id d loop w = (some (not_added e, d), w)
after_add (ok u) id d loop w = let (r, w') = loop w in (run_reply id r, w')

-- `Run`, of a given number of rounds of the loop. The deadline of a timeout is in `ctx_err` of the
-- environment.
unfoldable pub run_session :
    {W : Type 0}
    → Env W
    → Text
    → LoopDetector
    → ℕ
    → ℕ
    → Text
    → W
    → Option (RunReply × LoopDetector) × W
run_session env id d auto_retry n input w =
    let (added, w') = env.memory.add (message Role.user input ∷ []) w in
    after_add added id d (run_loop env d auto_retry n) w'
