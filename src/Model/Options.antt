-- ===== src/Model/Options.antt =====
-- model/option.go: the options of a call of a model. `F` stands for `float64`.
use simple_agent_framework.Prelude.{List, [], ◌∷◌, Option, none, some}
use simple_agent_framework.Prelude.Int.{ℤ}
use simple_agent_framework.Prelude.Text.{Text}
use simple_agent_framework.Model.Value.{Value}

pub record ToolDef : Type 0 where
  pub name : Text
  pub description : Text
  pub parameters : Option Value

pub record CallOptions (F : Type 0) : Type 0 where
  pub temperature : Option F
  pub max_tokens : Option ℤ
  pub top_p : Option F
  pub stop_words : List Text
  pub tools : List ToolDef

module _ {F : Type 0} where
  unfoldable pub no_options : CallOptions F
  no_options = record {
    temperature = none;
    max_tokens = none;
    top_p = none;
    stop_words = [];
    tools = [];
  }

  unfoldable pub with_temperature : F → CallOptions F → CallOptions F
  with_temperature t o = record o { temperature = some t }

  unfoldable pub with_max_tokens : ℤ → CallOptions F → CallOptions F
  with_max_tokens n o = record o { max_tokens = some n }

  unfoldable pub with_top_p : F → CallOptions F → CallOptions F
  with_top_p p o = record o { top_p = some p }

  unfoldable pub with_stop_words : List Text → CallOptions F → CallOptions F
  with_stop_words s o = record o { stop_words = s }

  unfoldable pub with_tool_defs : List ToolDef → CallOptions F → CallOptions F
  with_tool_defs tools o = record o { tools = tools }

  abbrev applied : List (CallOptions F → CallOptions F) → CallOptions F → CallOptions F
  applied [] o = o
  applied (opt ∷ opts) o = applied opts (opt o)

  -- `ApplyOptions`
  unfoldable pub apply_call_options : List (CallOptions F → CallOptions F) → CallOptions F
  unfolding no_options
  apply_call_options opts = applied opts no_options
