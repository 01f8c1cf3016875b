-- ===== src/Planner/PlanAndSolve/Extract.antt =====
-- planner/plan_and_solve.go, extractJSONObject: the JSON object in a model's answer.
use simple_agent_framework.Prelude.{
  ℕ, suc, if◌then◌else◌, [], ◌∷◌, Option, none, some, leb, take, drop, ◌+◌,
}
use simple_agent_framework.Prelude.Text.{Text, codes, has_prefix, trim_space}
use simple_agent_framework.Planner.PlanAndSolve.{later}

-- `strings.Index(s, p)`, of a `p` that is not empty.
unfoldable pub index : Text → Text → Option ℕ
index [] p = none
index (c ∷ s) p = let behind = later (index s p) in if has_prefix (c ∷ s) p then some 0 else behind

-- `strings.LastIndex(s, p)`, of a `p` that is not empty.
unfoldable pub last_index : Text → Text → Option ℕ
last_index [] p = none
last_index (c ∷ s) p = elim (last_index s p) [
  | some i ↦ some (suc i)
  | none ↦ if has_prefix (c ∷ s) p then some 0 else none
]

-- What stands behind the first line break, or all of the text.
abbrev pub behind_line : Text → Text
behind_line rest = elim (index rest (codes "\n")) [ none ↦ rest | some nl ↦ drop (suc nl) rest ]

-- The inside of a Markdown fence, where the text has a closed one.
abbrev pub unfenced : Text → Text
unfenced s = elim (index s (codes "```")) [
  | none ↦ s
  | some i ↦ inside (behind_line (drop (i + 3) s))
]
  where
    inside : Text → Text
    inside rest = elim (index rest (codes "```")) [ none ↦ s | some j ↦ trim_space (take j rest) ]

-- From the first brace that opens to the last that closes.
abbrev pub braced : Text → Text
braced s = elim (index s (codes "{")) [
  | none ↦ []
  | some start ↦ elim (last_index s (codes "}")) [
    | none ↦ []
    | some last ↦ if leb last start then [] else drop start (take (suc last) s)
  ]
]

unfoldable pub extract_json_object : Text → Text
unfolding index last_index
extract_json_object s = braced (unfenced (trim_space s))
