-- ===== src/Registry.antt =====
-- rule/registry.go, skill/registry.go and tool/registry.go: items by name, in the order in which
-- their names were first added.
pub mod Dictionary
pub mod Refine
pub mod Acts
use simple_agent_framework.Prelude.{
  Bool, true, false, if◌then◌else◌, List, [], ◌∷◌, ◌++◌, Option, none, some,
}
use simple_agent_framework.Prelude.Text.{Text, text_eq, codes}
use simple_agent_framework.Errors.{Exec, Error, err}

-- `map[string]A`
abbrev pub Table : Type 0 → Type 0
Table A = Text → Option A

pub record Registry (A : Type 0) : Type 0 where
  pub table : Table A
  pub order : List Text

-- `append(order[:idx], order[idx+1:]...)` at the first place of the name, if it has one.
unfoldable pub without : Text → List Text → List Text
without name [] = []
without name (n ∷ ns) = if text_eq n name then ns else n ∷ without name ns

module _ {A : Type 0} where
  abbrev pub put : Text → A → Table A → Table A
  put key a t other = if text_eq other key then some a else t other

  abbrev pub erased : Text → Table A → Table A
  erased key t other = if text_eq other key then none else t other

  abbrev prepend : Option A → List A → List A
  prepend none l = l
  prepend (some a) l = a ∷ l

  -- The values of the names that have one.
  unfoldable pub items : Table A → List Text → List A
  items t [] = []
  items t (n ∷ ns) = prepend (t n) (items t ns)

  abbrev pub new_registry : Registry A
  new_registry = record { table = λ n. none; order = [] }

  -- `order = append(order, name)` for a name that is new, and `table[name] = a`.
  unfoldable pub add_named : Text → A → Registry A → Registry A
  add_named name a r = elim (r.table name) [
    | none ↦ record { table = put name a r.table; order = r.order ++ name ∷ [] }
    | some old ↦ record { table = put name a r.table; order = r.order }
  ]

  unfoldable pub remove : Text → Registry A → Registry A
  remove name r = elim (r.table name) [
    | none ↦ r
    | some old ↦ record { table = erased name r.table; order = without name r.order }
  ]

  unfoldable pub get : Text → Registry A → Option A
  get name r = r.table name

  unfoldable pub list : Registry A → List A
  list r = items r.table r.order

  -- `Add` of items, of which some may be nil.
  unfoldable pub add : (A → Text) → List (Option A) → Registry A → Registry A
  add name_of [] r = r
  add name_of (none ∷ xs) r = add name_of xs r
  add name_of (some a ∷ xs) r = add name_of xs (add_named (name_of a) a r)
