-- ===== src/Model/Value.antt =====
-- The values of `map[string]any`, as encoding/json decodes them.
use simple_agent_framework.Prelude.{Bool, Option, none, some}
use simple_agent_framework.Prelude.Text.{Text}

-- A number is kept as its text: the program never computes with one.
mutual
  pub data Value : Type 0 where
    null : Value
    bool : Bool → Value
    num : Text → Value
    str : Text → Value
    arr : Items → Value
    obj : Fields → Value

  pub data Items : Type 0 where
    nil : Items
    cons : Value → Items → Items

  pub data Fields : Type 0 where
    end : Fields
    field : Text → Value → Fields → Fields

-- A tool's input; `none` is a nil map.
abbrev pub Input : Type 0
Input = Option Fields

-- A nil map becomes an empty one.
abbrev pub or_empty : Input → Input
or_empty none = some end
or_empty (some fs) = some fs
