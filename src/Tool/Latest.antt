-- ===== src/Tool/Latest.antt =====
-- tool/registry.go: which tool a call reaches, and in which order tools are shown.
use simple_agent_framework.Prelude.{
  ◌≡◌, refl, ap, sym, ◌∙◌, Option-cases, inl, inr, if◌then◌else◌, true, false, List, [], ◌∷◌,
  Option, none, some, map, arith,
}
use simple_agent_framework.Prelude.Text.{Text, text_eq, text_eq_refl}
use simple_agent_framework.Errors.{Context}
use simple_agent_framework.Model.Value.{Input}
use simple_agent_framework.Registry.{Table, items, list, add_named}
use simple_agent_framework.Registry.Dictionary.{IsValid, new-IsValid, insert_all, mem, has_value}
use simple_agent_framework.Registry.Refine.{add_named-refines}
use simple_agent_framework.Tool.{
  Tool, ToolRegistry, tool_name, new_tool_registry, add_tool, tools, execute, call_found,
}

module _ {S W : Type 0} where
  -- The tools are added one after the other.
  unfoldable pub add_tools : List (Tool S W) → ToolRegistry S W → ToolRegistry S W
  unfolding add_tool
  add_tools [] r = r
  add_tools (t ∷ ts) r = add_tools ts (add_tool t r)

  abbrev or_else : Option (Tool S W) → Option (Tool S W) → Option (Tool S W)
  or_else none b = b
  or_else (some a) b = some a

  -- The last tool with the name.
  abbrev pub latest : Text → List (Tool S W) → Option (Tool S W)
  latest name [] = none
  latest name (t ∷ ts) = or_else (latest name ts) (if text_eq name t.name then some t else none)

  pub add_tool-table :
      (t : Tool S W) (r : ToolRegistry S W) (name : Text)
      → (add_tool t r).table name ≡ (if text_eq name t.name then some t else r.table name)
  unfolding add_tool add_named
  add_tool-table t r name = elim (Option-cases (r.table t.name)) [
    | inl absent ↦ rw (add_tool, add_named, absent) refl
    | inr (old, present) ↦ rw (add_tool, add_named, present) refl
  ]

  add_tools-table :
      (ts : List (Tool S W)) (r : ToolRegistry S W) (name : Text)
      → (add_tools ts r).table name ≡ or_else (latest name ts) (r.table name)
  unfolding add_tools
  add_tools-table [] r name = refl
  add_tools-table (t ∷ ts) r name =
      (let ih = add_tools-table ts (add_tool t r) name in
        ih
        ∙ ap (or_else (latest name ts)) (add_tool-table t r name)
        ∙ joined (latest name ts) (text_eq name t.name))
    where
      joined :
          (l : Option (Tool S W)) (b : _)
          → or_else l (if b then some t else r.table name)
            ≡ or_else (or_else l (if b then some t else none)) (r.table name)
      joined (some a) b = refl
      joined none true = refl
      joined none false = refl

  -- A call by a name reaches the tool that was added last under it, and is the error that the name is
  -- not registered where no tool was.
  pub execute-latest :
      (quote : Text → Text) (ts : List (Tool S W)) (ctx : Context) (name : Text) (input : Input)
      → execute quote (add_tools ts new_tool_registry) ctx name input
        ≡ call_found quote name ctx input (latest name ts)
  unfolding execute new_tool_registry
  execute-latest quote ts ctx name input =
      ap (call_found quote name ctx input)
        (add_tools-table ts new_tool_registry name ∙ none_else (latest name ts))
    where
      none_else : (o : Option (Tool S W)) → or_else o none ≡ o
      none_else none = refl
      none_else (some t) = refl

  -- Of names that all have a tool, none is nil.
  map-items :
      (t : Table (Tool S W)) (o : List Text)
      → ((n : Text) → mem n o ≡ true → has_value (t n) ≡ true)
      → map t o ≡ map some (items t o)
  unfolding items
  map-items t [] c = refl
  map-items t (n ∷ o) c = elim (Option-cases (t n)) [
    | inl absent ↦
        (let here : has_value (t n) ≡ true = c n (rw (text_eq_refl n) refl) in
          ground (arith, ap has_value absent, here))
    | inr (a, found) ↦
        (let ih = map-items t o (λ k m. c k (ground (arith, m))) in rw (items, found, ih) refl)
  ]

  add_tools-refines :
      (ts : List (Tool S W)) (r : ToolRegistry S W)
      → IsValid tool_name r
      → IsValid tool_name (add_tools ts r)
        × (list (add_tools ts r) ≡ insert_all tool_name (map some ts) (list r))
  unfolding add_tools add_tool
  add_tools-refines [] r v = (v, refl)
  add_tools-refines (t ∷ ts) r v =
      (let (valid, same) = add_named-refines tool_name t r v in
        let (valid', same') = add_tools-refines ts (add_tool t r) valid in
        (valid', same' ∙ ap (insert_all tool_name (map some ts)) same))

  -- `Tools` never returns a nil tool: it lists each name once, in the order in which the names were
  -- first added, with the tool that was added last under it.
  pub tools-refines :
      (ts : List (Tool S W))
      → tools (add_tools ts new_tool_registry) ≡ map some (insert_all tool_name (map some ts) [])
  unfolding tools new_tool_registry list items
  tools-refines ts =
      (let (valid, same) = add_tools-refines ts new_tool_registry (new-IsValid tool_name) in
        let r = add_tools ts new_tool_registry in
        map-items r.table r.order (λ n m. sym (valid.covered n) ∙ m) ∙ ap (map some) same)
