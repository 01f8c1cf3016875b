-- ===== src/Retriever.antt =====
-- retriever/: what retrievers share, and those by keyword and by meaning (retriever.go, keyword.go,
-- semantic.go). Indexes, embedders and stores of vectors are parameters, and so are floats.
pub mod Hybrid
pub mod RagTool
use simple_agent_framework.Prelude.{
  Bool, true, false, if◌then◌else◌, List, [], ◌∷◌, Option, none, some,
}
use simple_agent_framework.Prelude.Int.{ℤ, pos}
use simple_agent_framework.Prelude.Text.{Text}
use simple_agent_framework.Errors.{Context, Exec, pure, ◌>>=◌}

pub record Document (F : Type 0) : Type 0 where
  pub id : Text
  pub content : Text
  pub score : F
  pub metadata : List (Text × Text)
  pub source : Text

pub record SearchOptions (F : Type 0) : Type 0 where
  pub top_k : ℤ
  pub min_score : F
  pub filters : List (Text × Text)
  pub collection : Text

abbrev pub SearchOption : Type 0 → Type 0
SearchOption F = SearchOptions F → SearchOptions F

-- `Retrieve`, over the state of the world.
abbrev pub Retriever : Type 0 → Type 0 → Type 0
Retriever F W = Context → Text → List (SearchOption F) → Exec W (List (Document F))

-- `float64` as the retrievers compare with it.
pub record Scores (F : Type 0) : Type 0 where
  pub nought : F
  pub at_most : F → F → Bool

module _ {F : Type 0} where
  abbrev pub with_top_k : ℤ → SearchOption F
  with_top_k k o = record o { top_k = k }

  abbrev pub with_min_score : F → SearchOption F
  with_min_score s o = record o { min_score = s }

  abbrev pub with_filters : List (Text × Text) → SearchOption F
  with_filters f o = record o { filters = f }

  abbrev pub with_collection : Text → SearchOption F
  with_collection c o = record o { collection = c }

  abbrev pub options_of : List (SearchOption F) → SearchOptions F → SearchOptions F
  options_of [] o = o
  options_of (opt ∷ opts) o = options_of opts (opt o)

module _ {F : Type 0} (s : Scores F) where
  unfoldable pub apply_search_options : List (SearchOption F) → SearchOptions F
  apply_search_options opts =
      options_of opts
        (record { top_k = pos 5; min_score = s.nought; filters = []; collection = [] })

  abbrev at_least : F → List (Document F) → List (Document F)
  at_least bound [] = []
  at_least bound (d ∷ ds) =
      if s.at_most bound d.score then d ∷ at_least bound ds else at_least bound ds

  -- The documents that score enough; the source writes them over the answer that it was given.
  unfoldable pub scored : F → List (Document F) → List (Document F)
  scored bound docs = if s.at_most bound s.nought then docs else at_least bound docs

  module _ {W : Type 0} where
    -- `KeywordRetriever.Retrieve`
    unfoldable pub keyword_retrieve :
        (Context → Text → ℤ → Exec W (List (Document F))) → Retriever F W
    unfolding apply_search_options scored
    keyword_retrieve search ctx query opts =
        let o = apply_search_options opts in
        search ctx query o.top_k >>= λ docs. pure (scored o.min_score docs)

    -- `SemanticRetriever.Retrieve`
    unfoldable pub semantic_retrieve :
        (Context → List Text → Exec W (List (List F)))
        → (Context → List F → ℤ → Exec W (List (Document F)))
        → Retriever F W
    unfolding apply_search_options scored
    semantic_retrieve embed search ctx query opts =
        let o = apply_search_options opts in
        embed ctx (query ∷ []) >>= λ vecs. elim vecs [
          | [] ↦ pure []
          | [] ∷ _ ↦ pure []
          | (x ∷ xs) ∷ _ ↦ search ctx (x ∷ xs) o.top_k >>= λ docs. pure (scored o.min_score docs)
        ]
