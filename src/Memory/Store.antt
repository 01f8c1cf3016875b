-- ===== src/Memory/Store.antt =====
-- memory/store.go and memory/store_inmem.go: the storage engine of a session's messages.
pub mod Sequence
use simple_agent_framework.Prelude.{
  ℕ, zero, suc, leb, if◌then◌else◌, ◌≡◌, refl, List, [], ◌++◌, none, length, drop,
  drop_of_length-le, leb→le, arith, Bool-cases, inl, inr,
}
use simple_agent_framework.Errors.{Exec, Context, ok, pure, check}
use simple_agent_framework.Model.{ChatMessage}

-- The interface `MessageStore`. `Close` releases connections and has no part in what is stored.
pub record MessageStore (S : Type 0) : Type 0 where
  pub append : Context → List ChatMessage → Exec S (Unit {0})
  pub list : Context → Exec S (List ChatMessage)
  pub replace : Context → List ChatMessage → Exec S (Unit {0})
  pub len : Context → Exec S ℕ
  pub trim_head : Context → ℕ → Exec S (Unit {0})
  pub clear : Context → Exec S (Unit {0})

-- What the interface's comments promise, of a context that is not done: the store is a sequence.
pub record IsSequence {S : Type 0} (m : MessageStore S) (view : S → List ChatMessage) : Type 0 where
  pub append_ok :
      (ms : List ChatMessage) (s : S)
      → ((m.append none ms s).0 ≡ ok tt) × (view (m.append none ms s).1 ≡ view s ++ ms)
  pub list_ok : (s : S) → m.list none s ≡ (ok (view s), s)
  pub replace_ok :
      (ms : List ChatMessage) (s : S)
      → ((m.replace none ms s).0 ≡ ok tt) × (view (m.replace none ms s).1 ≡ ms)
  pub len_ok : (s : S) → m.len none s ≡ (ok (length (view s)), s)
  pub trim_head_ok :
      (n : ℕ) (s : S)
      → ((m.trim_head none n s).0 ≡ ok tt) × (view (m.trim_head none n s).1 ≡ drop n (view s))
  pub clear_ok : (s : S) → ((m.clear none s).0 ≡ ok tt) × (view (m.clear none s).1 ≡ [])

-- `InMemoryMessageStore`; the mutex makes each method one step.
pub record InMemoryStore : Type 0 where
  pub messages : List ChatMessage

unfoldable pub new_in_memory : InMemoryStore
new_in_memory = record { messages = [] }

append : Context → List ChatMessage → Exec InMemoryStore (Unit {0})
append ctx [] = check ctx (pure tt)
append ctx ms = check ctx λ s. (ok tt, record s { messages = s.messages ++ ms })

list : Context → Exec InMemoryStore (List ChatMessage)
list ctx = check ctx λ s. (ok s.messages, s)

-- A nil list and an empty one store the same sequence.
replace : Context → List ChatMessage → Exec InMemoryStore (Unit {0})
replace ctx ms = check ctx λ s. (ok tt, record s { messages = ms })

len : Context → Exec InMemoryStore ℕ
len ctx = check ctx λ s. (ok (length s.messages), s)

trim_head : Context → ℕ → Exec InMemoryStore (Unit {0})
trim_head ctx zero = check ctx (pure tt)
trim_head ctx (suc n) = check ctx λ s.
    if leb (length s.messages) (suc n)
    then (ok tt, record s { messages = [] })
    else (ok tt, record s { messages = drop (suc n) s.messages })

clear : Context → Exec InMemoryStore (Unit {0})
clear ctx = check ctx λ s. (ok tt, record s { messages = [] })

unfoldable pub in_memory : MessageStore InMemoryStore
unfolding append list replace len trim_head clear
in_memory = record {
  append = append;
  list = list;
  replace = replace;
  len = len;
  trim_head = trim_head;
  clear = clear;
}
