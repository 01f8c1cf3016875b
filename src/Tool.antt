-- ===== src/Tool.antt =====
-- tool/tool.go and tool/registry.go: what an agent can call, and the registry of it.
pub mod Builtin
pub mod Latest
use simple_agent_framework.Prelude.{ℕ, List, [], ◌∷◌, ◌++◌, Option, none, some, map}
use simple_agent_framework.Prelude.Text.{Text, codes}
use simple_agent_framework.Errors.{Error, Exec, Context, raise}
use simple_agent_framework.Model.Value.{Input}
use simple_agent_framework.Registry.{Registry, add_named, new_registry}

-- The interface `Tool`, with schemas in the form `S`.
pub record Tool (S W : Type 0) : Type 0 where
  pub name : Text
  pub description : Text
  pub schema : Option S
  pub execute : Context → Input → Exec W Text

abbrev pub ToolRegistry : Type 0 → Type 0 → Type 0
ToolRegistry S W = Registry (Tool S W)

-- `fmt.Errorf("tool %q not registered", name)`, with `quote` for `%q`.
abbrev pub not_registered : (Text → Text) → Text → Error
not_registered quote name = Error.other (codes "tool " ++ (quote name ++ codes " not registered"))

module _ {S W : Type 0} where
  abbrev pub tool_name : Tool S W → Text
  tool_name t = t.name

  unfoldable pub new_tool_registry : ToolRegistry S W
  new_tool_registry = new_registry

  unfoldable pub add_tool : Tool S W → ToolRegistry S W → ToolRegistry S W
  unfolding add_named
  add_tool t r = add_named t.name t r

  -- `funcTool`, of the schema that `GenerateSchema` makes by reflection.
  unfoldable pub func_tool : Text → Text → Option S → (Input → Exec W Text) → Tool S W
  func_tool name description schema handler = record {
    name = name;
    description = description;
    schema = schema;
    execute = λ ctx. handler;
  }

  unfoldable pub register :
      Text → Text → Option S → (Input → Exec W Text) → ToolRegistry S W → ToolRegistry S W
  unfolding add_tool func_tool
  register name description schema handler = add_tool (func_tool name description schema handler)

  unfoldable pub get_tool : Text → ToolRegistry S W → Option (Tool S W)
  get_tool name r = r.table name

  -- A name that the map lacks would give a nil tool.
  unfoldable pub tools : ToolRegistry S W → List (Option (Tool S W))
  tools r = map r.table r.order

  unfoldable pub names : ToolRegistry S W → List Text
  names r = r.order

  abbrev pub call_found : (Text → Text) → Text → Context → Input → Option (Tool S W) → Exec W Text
  call_found quote name ctx input none = raise (not_registered quote name)
  call_found quote name ctx input (some t) = t.execute ctx input

  unfoldable pub execute : (Text → Text) → ToolRegistry S W → Context → Text → Input → Exec W Text
  unfolding get_tool
  execute quote r ctx name input = call_found quote name ctx input (get_tool name r)
