-- ===== src/Agent/Session/Resume.antt =====
-- agent/session.go over interrupter/checkpoint.go: what is suspended can be resumed.
use simple_agent_framework.Prelude.{
  ◌≡◌, refl, ap, ◌∙◌, if◌then◌else◌, Option, none, some, Bool-cases, inl, inr,
}
use simple_agent_framework.Prelude.Text.{Text, is_empty, text_eq_refl}
use simple_agent_framework.Errors.{Result, ok, err}
use simple_agent_framework.Interrupter.Checkpoint as Checkpoint
use simple_agent_framework.Interrupter.Checkpoint.{Codec, MemoryStore, load_snapshot-changed}
use simple_agent_framework.Agent.Session.{
  Session, CheckpointStore, RunSnapshot, save_checkpoint, load_checkpoint, with_checkpoint,
  with_run_id, get_checkpoint_store, get_run_id,
}

abbrev or_error : {A : Type 0} → Result A → Result (Option A)
or_error (ok a) = ok (some a)
or_error (err e) = err e

-- The store in memory as a `CheckpointStore`.
unfoldable pub in_memory_checkpoints : Codec RunSnapshot → CheckpointStore MemoryStore
in_memory_checkpoints codec = record {
  save = Checkpoint.save codec;
  load = λ ctx run w. let (r, w') = Checkpoint.load_snapshot codec ctx run w in (or_error r, w');
  delete = Checkpoint.delete codec;
}

run_id-with_run_id :
    (run : Text) (snap : RunSnapshot)
    → (with_run_id run snap).run_id ≡ (if is_empty snap.run_id then run else snap.run_id)
unfolding with_run_id
run_id-with_run_id run snap = elim (Bool-cases (is_empty snap.run_id)) [
  | inl unnamed ↦ rw (with_run_id, unnamed) refl
  | inr named ↦ rw (with_run_id, named) refl
]

module _ {M C K : Type 0} (codec : Codec RunSnapshot) where
  -- With checkpoints in memory and a live context, a snapshot that the codec reads back can be resumed
  -- after it was suspended: under its own run where it names one, and else under the session's run,
  -- which the snapshot then names.
  pub load_checkpoint-save :
      (s : Session M C K MemoryStore) (run b : Text) (snap : RunSnapshot) (w : MemoryStore)
      → codec.serialize (with_run_id run snap) ≡ ok b
      → codec.deserialize b ≡ ok (with_run_id run snap)
      → (load_checkpoint
          (with_checkpoint (some (in_memory_checkpoints codec)) run s)
          none
          (if is_empty snap.run_id then run else snap.run_id)
          (save_checkpoint
            (with_checkpoint (some (in_memory_checkpoints codec)) run s)
            none
            (some snap)
            w).2).0
        ≡ ok (some (with_run_id run snap))
  unfolding load_checkpoint save_checkpoint with_checkpoint in_memory_checkpoints
      get_checkpoint_store get_run_id
  load_checkpoint-save s run b snap w written read =
      let run' = (with_run_id run snap).run_id in
      rw⁻¹ (run_id-with_run_id run snap) (
        let kept = (load_snapshot-changed codec run' run' (with_run_id run snap) b w written).0 in
        ap or_error (
          kept
          ∙ ap
              (λ c.
                if c then codec.deserialize b else (Checkpoint.load_snapshot codec none run' w).0)
              (text_eq_refl run')
          ∙ read))
