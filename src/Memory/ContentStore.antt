-- ===== src/Memory/ContentStore.antt =====
-- memory/content_store.go: where the full text of a truncated tool result is kept.
use simple_agent_framework.Prelude.{◌≡◌, arith, if◌then◌else◌, List, [], ◌∷◌, Option, none, some}
use simple_agent_framework.Prelude.Text.{Text, text_eq}
use simple_agent_framework.Errors.{Error, Exec, Context, ok, err, check}

-- The interface `ContentStore`, under the caller's context.
pub record ContentStore (S : Type 0) : Type 0 where
  pub store : Text → Text → Exec S (Unit {0})
  pub load : Text → Exec S Text

-- `sync.Map` of `InMemoryContentStore`; the latest entry of a key comes first.
pub record InMemoryContentStore : Type 0 where
  pub entries : List (Text × Text)

find : Text → List (Text × Text) → Option Text
find key [] = none
find key ((k, v) ∷ rest) = if text_eq k key then some v else find key rest

store : Context → Text → Text → Exec InMemoryContentStore (Unit {0})
store ctx key content = check ctx λ s. (ok tt, record s { entries = (key, content) ∷ s.entries })

load : Context → Text → Exec InMemoryContentStore Text
unfolding find
load ctx key =
    check ctx
      λ s. elim (find key s.entries) [ none ↦ (err Error.not_exist, s) | some v ↦ (ok v, s) ]

unfoldable pub in_memory : Context → ContentStore InMemoryContentStore
unfolding store load
in_memory ctx = record { store = store ctx; load = load ctx }

-- After a `Store` with a live context, `Load` of any key returns the stored content if it is the
-- key that was stored, and else what it returned before.
pub load-store :
    (key other content : Text) (s : InMemoryContentStore)
    → let s' = ((in_memory none).store key content s).1 in
      ((in_memory none).load other s').0
      ≡ (if text_eq key other then ok content else ((in_memory none).load other s).0)
unfolding in_memory
load-store key other content s = ground arith
