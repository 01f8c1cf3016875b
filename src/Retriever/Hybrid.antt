-- ===== src/Retriever/Hybrid.antt =====
-- retriever/hybrid.go: the answers of two retrievers, merged by reciprocal ranks.
pub mod Fused
use simple_agent_framework.Prelude.{
  ℕ, suc, zero, ◌+◌, Bool, true, false, ◌&&◌, ◌||◌, if◌then◌else◌, List, [], ◌∷◌, ◌++◌, map, Option,
  none, some,
}
use simple_agent_framework.Prelude.Int.{ℤ, pos, negsuc}
use simple_agent_framework.Prelude.Text.{Text, codes, is_empty, text_eq, decimal}
use simple_agent_framework.Errors.{Error, error_text, Result, ok, err, Context, Exec}
use simple_agent_framework.Retriever.{Document, Retriever, SearchOption}

-- `float64` as the merger computes with it: `is_nought f` is `f == 0`, `weighed w n` is
-- `w / float64(n)`, and `is_finite` tests for what is neither NaN nor infinite.
pub record Weights (F : Type 0) : Type 0 where
  pub nought : F
  pub one : F
  pub is_nought : F → Bool
  pub plus : F → F → F
  pub weighed : F → ℕ → F
  pub is_finite : F → Bool

pub record RrfMerger (F : Type 0) : Type 0 where
  pub k : ℤ
  pub semantic_weight : F
  pub keyword_weight : F

abbrev positive_or : ℕ → ℤ → ℕ
positive_or d (pos zero) = d
positive_or d (pos (suc n)) = suc n
positive_or d (negsuc n) = d

module _ {F : Type 0} (f : Weights F) where
  -- What the loop of `add` computes of each document of a list: the copy with its identifier, which
  -- is made of the place where it has none, and its contribution.
  unfoldable pub ranked : ℕ → F → Text → ℕ → List (Document F) → List (Document F × F)
  ranked k weight prefix i [] = []
  ranked k weight prefix i (d ∷ ds) =
      let id = if is_empty d.id then prefix ++ decimal i else d.id in
      (record d { id = id }, f.weighed weight (k + suc i)) ∷ ranked k weight prefix (suc i) ds

  -- Whether `byID` has an identifier: the entries are its values, under their documents' identifiers.
  abbrev pub has : Text → List (Document F × F) → Bool
  has id [] = false
  has id ((d, s) ∷ l) = text_eq d.id id || has id l

  abbrev pub bump : Text → F → Document F × F → Document F × F
  bump id c (d, s) = (d, if text_eq d.id id then f.plus s c else s)

  -- The rest of the loop.
  unfoldable pub add_ranked : List (Document F × F) → List (Document F × F) → List (Document F × F)
  add_ranked [] agg = agg
  add_ranked ((d, c) ∷ es) agg =
      add_ranked es (if has d.id agg then map (bump d.id c) agg else agg ++ (d, c) ∷ [])

  abbrev pub finished : Document F × F → Document F
  finished (d, s) = record d { score = if f.is_finite s then s else f.nought }

  -- What is added for one side, after the defaults of `Merge`.
  abbrev pub sides :
      RrfMerger F
      → List (Document F)
      → List (Document F)
      → List (Document F × F) × List (Document F × F)
  sides m semantic keyword =
      let k = positive_or 60 m.k in
      let unset = f.is_nought m.semantic_weight && f.is_nought m.keyword_weight in
      let sw = if unset then f.one else m.semantic_weight in
      let kw = if unset then f.one else m.keyword_weight in
      (ranked k sw (codes "sem:") 0 semantic, ranked k kw (codes "kw:") 0 keyword)

  -- `RRFMerger.Merge`; `visited` is the order in which `range` goes through a map, and `sorted` is
  -- `sort.Slice` by the score and then the identifier.
  unfoldable pub merge :
      (List (Document F × F) → List (Document F × F))
      → (List (Document F) → List (Document F))
      → RrfMerger F
      → List (Document F)
      → List (Document F)
      → List (Document F)
  unfolding ranked add_ranked
  merge visited sorted m semantic keyword =
      let (first, second) = sides m semantic keyword in
      sorted (map finished (visited (add_ranked second (add_ranked first []))))

-- `ResultMerger.Merge`
abbrev pub Merger : Type 0 → Type 0
Merger F = List (Document F) → List (Document F) → List (Document F)

module _ {F : Type 0} where
  abbrev combined :
      Option (Merger F)
      → Result (List (Document F))
      → Result (List (Document F))
      → Result (List (Document F))
  combined merger (err e) (err e') = err (
      Error.other
        (codes "hybrid: semantic: " ++ (error_text e ++ (codes "; keyword: " ++ error_text e'))))
  combined merger (err e) (ok docs) = err e
  combined merger (ok docs) (err e) = err e
  combined none (ok docs) (ok docs') = ok (docs ++ docs')
  combined (some m) (ok docs) (ok docs') = ok (m docs docs')

module _ {F W : Type 0} where
  -- `HybridRetriever.Retrieve`. The two goroutines run one after the other, in either order.
  unfoldable pub hybrid_retrieve :
      Retriever F W → Retriever F W → Option (Merger F) → Bool → Retriever F W
  hybrid_retrieve semantic keyword merger keyword_first ctx query opts w =
      if keyword_first
      then (let (r', w') = keyword ctx query opts w in
          let (r, w'') = semantic ctx query opts w' in (combined merger r r', w''))
      else (let (r, w') = semantic ctx query opts w in
          let (r', w'') = keyword ctx query opts w' in (combined merger r r', w''))
