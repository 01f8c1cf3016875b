-- ===== src/Interrupter/Checkpoint.antt =====
-- interrupter/checkpoint.go: the store of snapshots in memory.
use simple_agent_framework.Prelude.{
  ◌≡◌, ap, sym, ◌∙◌, true, if◌then◌else◌, List, [], ◌∷◌, ◌++◌, Option, none, some, arith,
  Bool-cases, inl, inr,
}
use simple_agent_framework.Prelude.Text.{Text, codes, text_eq, text_eq_iff}
use simple_agent_framework.Errors.{Error, Result, ok, err, Exec, Context, check}

-- What encoding/json makes of a snapshot, and of the bytes of one; and `%q` of a text.
pub record Codec (A : Type 0) : Type 0 where
  pub serialize : A → Result Text
  pub deserialize : Text → Result A
  pub quote : Text → Text

-- The map of a `MemoryStore`; the latest entry of a run comes first.
pub record MemoryStore : Type 0 where
  pub data_of : List (Text × Text)

abbrev lookup : Text → List (Text × Text) → Option Text
lookup run [] = none
lookup run ((k, b) ∷ rest) = if text_eq k run then some b else lookup run rest

abbrev remove : Text → List (Text × Text) → List (Text × Text)
remove run [] = []
remove run ((k, b) ∷ rest) =
    let behind = remove run rest in if text_eq k run then behind else (k, b) ∷ behind

both_equal :
    (k run other : Text) → text_eq k other ≡ true → text_eq run other ≡ true → text_eq k run ≡ true
both_equal k run other h h' =
    (text_eq_iff k run).1 ((text_eq_iff k other).0 h ∙ sym ((text_eq_iff run other).0 h'))

module _ {A : Type 0} (codec : Codec A) where
  abbrev saved : Text → Result Text → Exec MemoryStore (Unit {0})
  saved run (err e) s = (err e, s)
  saved run (ok b) s = (ok tt, record s { data_of = (run, b) ∷ s.data_of })

  -- A nil snapshot is not saved.
  unfoldable pub save : Context → Text → Option A → Exec MemoryStore (Unit {0})
  save ctx run none = check ctx λ s. (ok tt, s)
  save ctx run (some a) = check ctx (saved run (codec.serialize a))

  abbrev pub found : Text → Option Text → Result A
  found run none = err (Error.other (codes "checkpoint: not found for run_id " ++ codec.quote run))
  found run (some b) = codec.deserialize b

  unfoldable pub load_snapshot : Context → Text → Exec MemoryStore A
  load_snapshot ctx run = check ctx λ s. (found run (lookup run s.data_of), s)

  unfoldable pub delete : Context → Text → Exec MemoryStore (Unit {0})
  delete ctx run = check ctx λ s. (ok tt, record s { data_of = remove run s.data_of })

  lookup-remove :
      (run other : Text) (l : List (Text × Text))
      → lookup other (remove run l) ≡ (if text_eq run other then none else lookup other l)
  lookup-remove run other [] = ground arith
  lookup-remove run other ((k, b) ∷ l) = elim (Bool-cases (text_eq k run)) [
    | inl same ↦
        (let ih = lookup-remove run other l in
          let e : text_eq k other ≡ text_eq run other =
            ap (λ x. text_eq x other) ((text_eq_iff k run).0 same) in
          rw same (ground arith))
    | inr differs ↦
        (let ih = lookup-remove run other l in
          let apart = both_equal k run other in rw differs (ground arith))
  ]

  load_snapshot-save :
      (run other : Text) (a : A) (b : Text) (s : MemoryStore)
      → codec.serialize a ≡ ok b
      → (load_snapshot none other (save none run (some a) s).1).0
        ≡ (if text_eq run other then codec.deserialize b else (load_snapshot none other s).0)
  unfolding load_snapshot save
  load_snapshot-save run other a b s h = rw (save, h) (ground arith)

  load_snapshot-delete :
      (run other : Text) (s : MemoryStore)
      → (load_snapshot none other (delete none run s).1).0
        ≡ (if text_eq run other then found other none else (load_snapshot none other s).0)
  unfolding load_snapshot delete
  load_snapshot-delete run other s =
      ap (found other) (lookup-remove run other s.data_of) ∙ ground arith

  -- With a live context, `Load` after `Save` of a snapshot that can be serialized reads it back, as far
  -- as the codec does, and after `Delete` finds none; of any other run it finds what it found before.
  pub load_snapshot-changed :
      (run other : Text) (a : A) (b : Text) (s : MemoryStore)
      → codec.serialize a ≡ ok b
      → ((load_snapshot none other (save none run (some a) s).1).0
          ≡ (if text_eq run other then codec.deserialize b else (load_snapshot none other s).0))
        × ((load_snapshot none other (delete none run s).1).0
            ≡ (if text_eq run other then found other none else (load_snapshot none other s).0))
  load_snapshot-changed run other a b s h =
      (load_snapshot-save run other a b s h, load_snapshot-delete run other s)
