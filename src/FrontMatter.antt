-- ===== src/FrontMatter.antt =====
-- rule/loader.go and skill/loader.go: `parseFrontmatter`, which stands in both.
pub mod Files
pub mod Printed
use simple_agent_framework.Prelude.{
  ℕ, Bool, true, false, ◌||◌, ◌&&◌, ◌==◌, ◌+◌, suc, List, [], ◌∷◌, ◌++◌, Option, none, some, length,
  take, drop, if◌then◌else◌,
}
use simple_agent_framework.Prelude.Text.{Text, codes, has_prefix, trim_space, text_eq}
use simple_agent_framework.Planner.PlanAndSolve.Extract.{index}

pub record FrontMatter : Type 0 where
  pub description : Text
  pub always_apply : Bool
  pub body : Text

-- `strings.TrimLeft(text, "\xef\xbb\xbf")`, which drops all byte order marks that come first.
unfoldable pub trim_bom : Text → Text
trim_bom (c ∷ d ∷ e ∷ s) =
    let rest = trim_bom s in if c == 0xef && d == 0xbb && e == 0xbf then rest else c ∷ d ∷ e ∷ s
trim_bom s = s

-- `strings.Split(s, "\n")`
unfoldable pub split_lines : Text → List Text
split_lines [] = [] ∷ []
split_lines (c ∷ s) =
    let behind = split_lines s in if c == 10 then [] ∷ behind else onto_first behind
  where
    onto_first : List Text → List Text
    onto_first [] = (c ∷ []) ∷ []
    onto_first (t ∷ ts) = (c ∷ t) ∷ ts

-- What is left of a line behind the key that it begins with.
abbrev value_of : Text → Text → Text
value_of key line = trim_space (drop (length key) line)

abbrev read_trimmed : Text → FrontMatter → FrontMatter
read_trimmed line f =
    if has_prefix line (codes "description:")
    then record f { description = value_of (codes "description:") line }
    else (if has_prefix line (codes "alwaysApply:")
        then record f {
          always_apply = text_eq (value_of (codes "alwaysApply:") line) (codes "true");
        }
        else f)

unfoldable pub read_lines : List Text → FrontMatter → FrontMatter
read_lines [] f = f
read_lines (line ∷ lines) f = read_lines lines (read_trimmed (trim_space line) f)

-- Without front matter the first line is the description, and the rest the body.
abbrev legacy : Text → FrontMatter
legacy trimmed = elim (index trimmed (codes "\n")) [
  | none ↦ record { description = trim_space trimmed; always_apply = false; body = [] }
  | some i ↦ record {
    description = trim_space (take i trimmed);
    always_apply = false;
    body = trim_space (drop (suc i) trimmed);
  }
]

-- What follows the opening line, which the closing line ends at the index, if there is one.
abbrev fenced_at : Text → Text → Option ℕ → FrontMatter
fenced_at trimmed rest none = record {
  description = [];
  always_apply = false;
  body = trim_space trimmed;
}
fenced_at trimmed rest (some i) =
    read_lines (split_lines (take i rest))
      (record { description = []; always_apply = false; body = trim_space (drop (i + 4) rest) })

abbrev fenced : Text → Text → FrontMatter
fenced trimmed rest = fenced_at trimmed rest (index rest (codes "\n---"))

abbrev opens : Text → Bool
opens trimmed = has_prefix trimmed (codes "---\n") || has_prefix trimmed (codes "---\r\n")

abbrev parse_trimmed : Text → FrontMatter
parse_trimmed trimmed = if opens trimmed then fenced trimmed (drop 4 trimmed) else legacy trimmed

unfoldable pub parse_frontmatter : Text → FrontMatter
unfolding trim_bom split_lines read_lines
parse_frontmatter text = parse_trimmed (trim_bom text)
