-- ===== src/Retriever/RagTool.antt =====
-- retriever/rag_tool.go: a retriever as a tool. Its schema is an argument, and so is `%.4f`.
use simple_agent_framework.Prelude.{
  ℕ, suc, if◌then◌else◌, List, [], ◌∷◌, ◌++◌, Option, none, some, reverse, ◌==◌,
}
use simple_agent_framework.Prelude.Text.{Text, codes, is_empty, text_eq, decimal}
use simple_agent_framework.Errors.{Error, Exec, raise, pure, ◌>>=◌}
use simple_agent_framework.Model.Value.{Input, Value, str}
use simple_agent_framework.Tool.{Tool}
use simple_agent_framework.Tool.Builtin.{field_of}
use simple_agent_framework.Retriever.{Document, Retriever}

-- `metadata[key]`
abbrev meta : Text → List (Text × Text) → Text
meta key [] = []
meta key ((k, v) ∷ l) = if text_eq k key then v else meta key l

-- `strings.TrimRight(s, "\n")`, of a text that is reversed.
abbrev drop_newlines : Text → Text
drop_newlines [] = []
drop_newlines (c ∷ s) = if c == b'\n' then drop_newlines s else c ∷ s

-- `raw, ok := input["query"]`
abbrev query_of : Input → Option Value
query_of none = none
query_of (some fs) = field_of (codes "query") fs

module _ {F : Type 0} (show_score : F → Text) where
  abbrev entry_text : ℕ → Document F → Text
  entry_text i d =
      let src = if is_empty d.source then meta (codes "source") d.metadata else d.source in
      codes "["
      ++ (decimal (suc i)
          ++ (codes "] (score: "
              ++ (show_score d.score
                  ++ (codes ", source: " ++ (src ++ (codes ")\n" ++ (d.content ++ codes "\n")))))))

  abbrev entries_text : ℕ → List (Document F) → Text
  entries_text i [] = []
  entries_text i (d ∷ []) = entry_text i d
  entries_text i (d ∷ e ∷ ds) = entry_text i d ++ (codes "\n" ++ entries_text (suc i) (e ∷ ds))

  -- `DefaultFormatter.Format`
  unfoldable pub format : List (Document F) → Text
  format docs = reverse (drop_newlines (reverse (entries_text 0 docs)))

  pub record RagTool (W : Type 0) : Type 0 where
    pub name : Text
    pub description : Text
    pub retriever : Retriever F W
    pub formatter : Option (List (Document F) → Text)

  module _ {W : Type 0} where
    abbrev with_formatter : Option (List (Document F) → Text) → RagTool W → RagTool W
    with_formatter formatter t = record t { formatter = formatter }

    abbrev tool_of : List (RagTool W → RagTool W) → RagTool W → RagTool W
    tool_of [] t = t
    tool_of (o ∷ opts) t = tool_of opts (o t)

    unfoldable pub new_rag_tool :
        Text → Text → Retriever F W → List (RagTool W → RagTool W) → RagTool W
    unfolding format
    new_rag_tool name description r opts =
        tool_of opts (record {
          name = name;
          description = description;
          retriever = r;
          formatter = some format;
        })

    -- `RAGTool.Execute`
    unfoldable pub rag_execute : RagTool W → Option Error → Input → Exec W Text
    unfolding format
    rag_execute t ctx input = elim (query_of input) [
      | none ↦ raise (Error.other (codes "missing query"))
      | some (str q) ↦ t.retriever ctx q [] >>= λ docs. (elim t.formatter [
        | none ↦ pure (format docs)
        | some write ↦ pure (write docs)
      ])
      | some _ ↦ raise (Error.other (codes "query must be a string"))
    ]

    abbrev rag_tool : {S : Type 0} → S → RagTool W → Tool S W
    rag_tool schema t = record {
      name = t.name;
      description = t.description;
      schema = some schema;
      execute = rag_execute t;
    }
