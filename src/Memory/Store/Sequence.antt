-- ===== src/Memory/Store/Sequence.antt =====
-- memory/store_inmem.go keeps the contract of memory/store.go.
use simple_agent_framework.Prelude.{
  ℕ, zero, suc, ◌≡◌, refl, sym, List, [], ◌∷◌, ◌++◌, none, some, length, drop, drop_of_length-le,
  leb, leb→le, Bool-cases, inl, inr,
}
use simple_agent_framework.Errors.{Error, ok, err}
use simple_agent_framework.Model.{ChatMessage}
use simple_agent_framework.Memory.Store.{IsSequence, InMemoryStore, in_memory}
use mathlib.Core.List.{append-nil}

in_memory-append :
    (ms : List ChatMessage) (s : InMemoryStore)
    → ((in_memory.append none ms s).0 ≡ ok tt)
      × ((in_memory.append none ms s).1.messages ≡ s.messages ++ ms)
unfolding in_memory
in_memory-append [] s = (refl, sym (append-nil s.messages))
in_memory-append (x ∷ xs) s = (refl, refl)

in_memory-trim_head :
    (n : ℕ) (s : InMemoryStore)
    → ((in_memory.trim_head none n s).0 ≡ ok tt)
      × ((in_memory.trim_head none n s).1.messages ≡ drop n s.messages)
unfolding in_memory
in_memory-trim_head zero s = (refl, refl)
in_memory-trim_head (suc n) s = elim (Bool-cases (leb (length s.messages) (suc n))) [
  | inl all ↦ rw all (refl, sym (drop_of_length-le (suc n) s.messages (leb→le _ _ all)))
  | inr some_left ↦ rw some_left (refl, refl)
]

pub in_memory-IsSequence : IsSequence in_memory (λ s. s.messages)
unfolding in_memory
in_memory-IsSequence = record {
  append_ok = in_memory-append;
  list_ok = λ s. refl;
  replace_ok = λ ms s. (refl, refl);
  len_ok = λ s. refl;
  trim_head_ok = in_memory-trim_head;
  clear_ok = λ s. (refl, refl);
}

in_memory_cancelled :
    (e : Error) (ms : List ChatMessage) (n : ℕ) (s : InMemoryStore)
    → (in_memory.append (some e) ms s ≡ (err e, s))
      × (in_memory.list (some e) s ≡ (err e, s))
      × (in_memory.replace (some e) ms s ≡ (err e, s))
      × (in_memory.len (some e) s ≡ (err e, s))
      × (in_memory.trim_head (some e) n s ≡ (err e, s))
      × (in_memory.clear (some e) s ≡ (err e, s))
unfolding in_memory
in_memory_cancelled e [] zero s = (refl, refl, refl, refl, refl, refl)
in_memory_cancelled e [] (suc n) s = (refl, refl, refl, refl, refl, refl)
in_memory_cancelled e (x ∷ xs) zero s = (refl, refl, refl, refl, refl, refl)
in_memory_cancelled e (x ∷ xs) (suc n) s = (refl, refl, refl, refl, refl, refl)

-- The in-memory engine keeps the contract of `MessageStore`: what is stored is a sequence, and
-- with a live context each operation returns no error and does to it what the interface promises.
-- When the context is done with the error `e`, no operation changes what is stored, and each
-- returns `e`.
pub in_memory-keeps :
    (e : Error) (ms : List ChatMessage) (n : ℕ) (s : InMemoryStore)
    → IsSequence in_memory (λ s. s.messages)
      × (in_memory.append (some e) ms s ≡ (err e, s))
      × (in_memory.list (some e) s ≡ (err e, s))
      × (in_memory.replace (some e) ms s ≡ (err e, s))
      × (in_memory.len (some e) s ≡ (err e, s))
      × (in_memory.trim_head (some e) n s ≡ (err e, s))
      × (in_memory.clear (some e) s ≡ (err e, s))
in_memory-keeps e ms n s =
    let (append, list, replace, len, trim_head, clear) = in_memory_cancelled e ms n s in
    (in_memory-IsSequence, append, list, replace, len, trim_head, clear)
