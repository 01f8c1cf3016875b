-- ===== src/Memory/Buffer.antt =====
-- memory/buffer.go: a sliding window over any `MessageStore`.
pub mod Window
use simple_agent_framework.Prelude.{
  ℕ, suc, zero, ◌-◌, ◌+◌, leb, ◌==◌, if◌then◌else◌, List, [], ◌∷◌, ◌++◌, length, take, drop,
}
use simple_agent_framework.Prelude.Int.{ℤ, is_positive, pos_part}
use simple_agent_framework.Errors.{Exec, Context, pure, ◌>>=◌, ◌>>◌}
use simple_agent_framework.Model.{ChatMessage, is_system}
use simple_agent_framework.Memory.Store.{MessageStore}

-- The loop that counts the leading system messages.
unfoldable pub leading_system : List ChatMessage → ℕ
leading_system [] = 0
leading_system (x ∷ xs) = if is_system x.role then suc (leading_system xs) else 0

pub record BufferMemory (S : Type 0) : Type 0 where
  pub store : MessageStore S
  pub max_size : ℤ

module _ {S : Type 0} where
  pub messages : BufferMemory S → Context → Exec S (List ChatMessage)
  messages m ctx = m.store.list ctx

  trim_preserving_system : BufferMemory S → Context → ℕ → Exec S (Unit {0})
  trim_preserving_system m ctx zero = pure tt
  trim_preserving_system m ctx (suc n) = do
    msgs ← m.store.list ctx
    let sys_head = leading_system msgs
    if sys_head == 0
        then m.store.trim_head ctx (suc n)
        else if leb (length msgs - sys_head) (suc n)
        then m.store.replace ctx (take sys_head msgs)
        else m.store.replace ctx (take sys_head msgs ++ drop (sys_head + suc n) msgs)

  limit : BufferMemory S → Context → Exec S (Unit {0})
  unfolding trim_preserving_system
  limit m ctx = do
    n ← m.store.len ctx
    if leb n (pos_part m.max_size)
        then pure tt
        else trim_preserving_system m ctx (n - pos_part m.max_size)

  pub add : BufferMemory S → Context → List ChatMessage → Exec S (Unit {0})
  unfolding limit
  add m ctx [] = pure tt
  add m ctx (x ∷ xs) = do
    m.store.append ctx (x ∷ xs)
    if is_positive m.max_size then limit m ctx else pure tt

  pub clear : BufferMemory S → Context → Exec S (Unit {0})
  clear m ctx = m.store.clear ctx
