-- ===== src/Tests/Snapshots.antt =====
-- interrupter/checkpoint.go on small inputs.
use simple_agent_framework.Prelude.{ℕ, ◌≡◌, refl, if◌then◌else◌, [], ◌∷◌, none, some}
use simple_agent_framework.Prelude.Text.{Text, codes, text_eq}
use simple_agent_framework.Errors.{Error, ok, err, Result}
use simple_agent_framework.Interrupter.Checkpoint.{
  Codec, MemoryStore, save, load_snapshot, delete, found, load_snapshot-changed,
}

-- A snapshot of one number.
abbrev read_number : Text → Result ℕ
read_number [] = err (Error.other (codes "unexpected end of JSON input"))
read_number (n ∷ t) = ok n

abbrev numbers : Codec ℕ
numbers = record { serialize = λ n. ok (n ∷ []); deserialize = read_number; quote = λ t. t }

abbrev one_saved : MemoryStore
one_saved = record { data_of = (codes "run_1", 7 ∷ []) ∷ [] }

load_snapshot-changed_example :
    ((load_snapshot numbers none
        (codes "run_1")
        (save numbers none (codes "run_2") (some 8) one_saved).1).0
      ≡ (if text_eq (codes "run_2") (codes "run_1")
          then ok 8
          else (load_snapshot numbers none (codes "run_1") one_saved).0))
    × ((load_snapshot numbers none
          (codes "run_1")
          (delete numbers none (codes "run_2") one_saved).1).0
        ≡ (if text_eq (codes "run_2") (codes "run_1")
            then found numbers (codes "run_1") none
            else (load_snapshot numbers none (codes "run_1") one_saved).0))
load_snapshot-changed_example =
    load_snapshot-changed numbers (codes "run_2") (codes "run_1") 8 (8 ∷ []) one_saved refl
