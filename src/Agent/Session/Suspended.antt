-- ===== src/Agent/Session/Suspended.antt =====
-- agent/agent.go: runs that are suspended and resumed by the identifier of their session.
use simple_agent_framework.Prelude.{◌≡◌, refl, if◌then◌else◌, ◌++◌, Option, none, some}
use simple_agent_framework.Prelude.Text.{Text, codes, is_empty}
use simple_agent_framework.Errors.{Error, Result, Exec, Context, ok, err, raise}
use simple_agent_framework.Interrupter.Checkpoint as Checkpoint
use simple_agent_framework.Interrupter.Checkpoint.{Codec, MemoryStore}
use simple_agent_framework.Agent.Session.{
  Session, Sessions, CheckpointStore, RunSnapshot, lookup_session, save_checkpoint, load_checkpoint,
  with_checkpoint, with_run_id, get_checkpoint_store, get_run_id,
}
use simple_agent_framework.Agent.Session.Resume.{in_memory_checkpoints, load_checkpoint-save}

abbrev not_found : Text → Error
not_found id = Error.other (codes "session not found: " ++ id)

abbrev not_configured : Error
not_configured = Error.other (codes "checkpoint store not configured")

module _ {M C K W : Type 0} (m : Sessions M C K W) where
  -- `Agent.Suspend`: the error, the caller's snapshot after the call, and the world.
  unfoldable pub suspend :
      Context → Text → Option RunSnapshot → W → Result (Unit {0}) × Option RunSnapshot × W
  suspend ctx id snap w = elim (lookup_session id m) [
    | none ↦ (err (not_found id), snap, w)
    | some s ↦ save_checkpoint s ctx snap w
  ]

  -- `Agent.Resume`
  unfoldable pub resume : Context → Text → Text → Exec W (Option RunSnapshot)
  resume ctx id run w = elim (lookup_session id m) [
    | none ↦ (err (not_found id), w)
    | some s ↦ load_checkpoint s ctx run w
  ]

  suspend_of_found :
      (ctx : Context) (id : Text) (s : Session M C K W) (snap : Option RunSnapshot) (w : W)
      → lookup_session id m ≡ some s
      → suspend ctx id snap w ≡ save_checkpoint s ctx snap w
  unfolding suspend
  suspend_of_found ctx id s snap w found = rw (suspend, found) refl

  resume_of_found :
      (ctx : Context) (id run : Text) (s : Session M C K W) (w : W)
      → lookup_session id m ≡ some s
      → resume ctx id run w ≡ load_checkpoint s ctx run w
  unfolding resume
  resume_of_found ctx id run s w found = rw (resume, found) refl

module _ {W : Type 0} where
  -- `GetState` and `DeleteCheckpoint`, of the agent's store.
  unfoldable pub get_state :
      Option (CheckpointStore W) → Context → Text → Exec W (Option RunSnapshot)
  get_state none ctx run = raise not_configured
  get_state (some store) ctx run = store.load ctx run

  unfoldable pub delete_checkpoint : Option (CheckpointStore W) → Context → Text → Exec W (Unit {0})
  delete_checkpoint none ctx run = raise not_configured
  delete_checkpoint (some store) ctx run = store.delete ctx run

module _ {M C K : Type 0} (codec : Codec RunSnapshot) where
  -- With a live context, and checkpoints in memory in a session that the agent has, a snapshot that
  -- the codec reads back can be resumed after it was suspended, both by the session's identifier:
  -- under its own run where it names one, and else under the session's run. `Suspend` returns no
  -- error and leaves that run's name in the caller's snapshot.
  pub resume-suspend :
      (m : Sessions M C K MemoryStore) (id run b : Text) (s : Session M C K MemoryStore)
      (snap : RunSnapshot) (w : MemoryStore)
      → lookup_session id m ≡ some (with_checkpoint (some (in_memory_checkpoints codec)) run s)
      → codec.serialize (with_run_id run snap) ≡ ok b
      → codec.deserialize b ≡ ok (with_run_id run snap)
      → let (r, kept, w') = suspend m none id (some snap) w in
        (r ≡ ok tt)
        × (kept ≡ some (with_run_id run snap))
        × ((resume m none id (if is_empty snap.run_id then run else snap.run_id) w').0
            ≡ ok (some (with_run_id run snap)))
  unfolding save_checkpoint with_checkpoint in_memory_checkpoints get_checkpoint_store get_run_id
      Checkpoint.save
  resume-suspend m id run b s snap w found written read =
      let run' = if is_empty snap.run_id then run else snap.run_id in
      let held = with_checkpoint (some (in_memory_checkpoints codec)) run s in
      let saved = save_checkpoint held none (some snap) w in
      rw
        (
          suspend_of_found m none id held (some snap) w found,
          resume_of_found m none id run' held saved.2 found,
        )
        (rw written refl, refl, load_checkpoint-save codec s run b snap w written read)
