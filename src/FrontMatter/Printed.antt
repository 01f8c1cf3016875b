-- ===== src/FrontMatter/Printed.antt =====
-- rule/loader.go and skill/loader.go: front matter that was printed is read back.
use simple_agent_framework.Prelude.{
  ℕ, Bool, true, false, not, ◌==◌, ◌+◌, suc, ◌≡◌, refl, ap, ap₂, ◌∙◌, [], ◌∷◌, ◌++◌, Option, none,
  some, length, take, drop, drop-append, all, arith,
}
use simple_agent_framework.Prelude.Text.{
  Text, codes, has_prefix, trim_space, trim_space-skip, text_eq,
}
use simple_agent_framework.Planner.PlanAndSolve.{later}
use simple_agent_framework.Planner.PlanAndSolve.Extract.{index}
use simple_agent_framework.FrontMatter.{
  FrontMatter, trim_bom, split_lines, read_lines, read_trimmed, fenced_at, parse_frontmatter,
}

abbrev pub is_line : Text → Bool
is_line = all (λ c. not (c == 10))

abbrev flag : Bool → Text
flag true = codes "true"
flag false = codes "false"

-- The lines of the metadata after the description, and all after it.
abbrev behind_description : Bool → Text → Text
behind_description a body = codes "\nalwaysApply: " ++ (flag a ++ (codes "\n---\n" ++ body))

abbrev pub printed : FrontMatter → Text
printed f =
    codes "---\ndescription: " ++ (f.description ++ behind_description f.always_apply f.body)

abbrev plus : ℕ → Option ℕ → Option ℕ
plus n none = none
plus n (some i) = some (n + i)

plus-zero : (o : Option ℕ) → o ≡ plus 0 o
plus-zero none = refl
plus-zero (some i) = ap some (omega arith)

later-plus : (n : ℕ) (o : Option ℕ) → later (plus n o) ≡ plus (suc n) o
later-plus n none = refl
later-plus n (some i) = ap some (omega arith)

-- A pattern that begins with a line break is not found in a line.
index-line :
    (s t p : Text) → is_line s ≡ true → index (s ++ t) (10 ∷ p) ≡ plus (length s) (index t (10 ∷ p))
unfolding index has_prefix
index-line [] t p h = plus-zero (index t (10 ∷ p))
index-line (c ∷ s) t p h =
    let other : (c == 10) ≡ false = ground (arith, h) in
    let ih = index-line s t p (ground (arith, h)) in
    rw (other, ih) (later-plus (length s) (index t (10 ∷ p)))

take-append : (s t : Text) (n : ℕ) → take (length s + n) (s ++ t) ≡ s ++ take n t
take-append [] t n = ap (λ m. take m t) (let h : 0 + n ≡ n = omega arith in h)
take-append (c ∷ s) t n =
    ap (λ m. take m (c ∷ (s ++ t)))
      (let h : suc (length s) + n ≡ suc (length s + n) = omega arith in h)
    ∙ ap (◌∷◌ c) (take-append s t n)

split_lines-line : (s t : Text) → is_line s ≡ true → split_lines (s ++ 10 ∷ t) ≡ s ∷ split_lines t
unfolding split_lines
split_lines-line [] t h = refl
split_lines-line (c ∷ s) t h =
    let other : (c == 10) ≡ false = ground (arith, h) in
    let ih = split_lines-line s t (ground (arith, h)) in rw (other, ih) refl

described : Text → Text
described d = codes "description: " ++ d

read_description :
    (d : Text) (f : FrontMatter)
    → trim_space (described d) ≡ described d
    → trim_space d ≡ d
    → read_trimmed (trim_space (described d)) f ≡ record f { description = d }
unfolding described has_prefix
read_description d f whole trimmed =
    ap (λ l. read_trimmed l f) whole
    ∙ ap (λ t. let g : FrontMatter = record f { description = t } in g)
        (trim_space-skip 32 d refl ∙ trimmed)

-- What is read of the two lines of the metadata.
read_lines-printed :
    (d body : Text) (a : Bool)
    → trim_space (described d) ≡ described d
    → trim_space d ≡ d
    → read_lines
        (described d ∷ (codes "alwaysApply: " ++ flag a) ∷ [])
        (record { description = []; always_apply = false; body = body })
      ≡ record { description = d; always_apply = a; body = body }
unfolding read_lines has_prefix text_eq trim_space
read_lines-printed d body true whole trimmed =
    ap (read_lines (codes "alwaysApply: true" ∷ [])) (read_description d _ whole trimmed)
read_lines-printed d body false whole trimmed =
    ap (read_lines (codes "alwaysApply: false" ∷ [])) (read_description d _ whole trimmed)

-- How far behind the description the closing line begins.
abbrev flag_end : Bool → ℕ
flag_end true = 18
flag_end false = 19

index-printed :
    (d body : Text) (a : Bool)
    → is_line d ≡ true
    → index (described d ++ behind_description a body) (codes "\n---")
      ≡ some (length (described d) + flag_end a)
unfolding index has_prefix described
index-printed d body true h =
    index-line (described d) (behind_description true body) (codes "---") h
index-printed d body false h =
    index-line (described d) (behind_description false body) (codes "---") h

meta-printed :
    (d body : Text) (a : Bool)
    → is_line d ≡ true
    → split_lines
        (take (length (described d) + flag_end a) (described d ++ behind_description a body))
      ≡ described d ∷ (codes "alwaysApply: " ++ flag a) ∷ []
unfolding split_lines described
meta-printed d body true h =
    ap split_lines (take-append (described d) (behind_description true body) 18)
    ∙ split_lines-line (described d) (codes "alwaysApply: true") h
meta-printed d body false h =
    ap split_lines (take-append (described d) (behind_description false body) 19)
    ∙ split_lines-line (described d) (codes "alwaysApply: false") h

body-printed :
    (d body : Text) (a : Bool)
    → trim_space body ≡ body
    → trim_space
        (drop (length (described d) + flag_end a + 4) (described d ++ behind_description a body))
      ≡ body
body-printed d body true trimmed =
    let same : length (described d) + 18 + 4 ≡ length (described d) + 22 = omega arith in
    ap trim_space (
      ap (λ n. drop n (described d ++ behind_description true body)) same
      ∙ drop-append (described d) (behind_description true body) 22)
    ∙ trim_space-skip 10 body refl
    ∙ trimmed
body-printed d body false trimmed =
    let same : length (described d) + 19 + 4 ≡ length (described d) + 23 = omega arith in
    ap trim_space (
      ap (λ n. drop n (described d ++ behind_description false body)) same
      ∙ drop-append (described d) (behind_description false body) 23)
    ∙ trim_space-skip 10 body refl
    ∙ trimmed

-- A description of one line and a body, with no white space around them that would be trimmed, are read
-- back from the file that they are printed to, and so is the flag.
pub parse_frontmatter-printed :
    (f : FrontMatter)
    → is_line f.description ≡ true
    → trim_space (codes "description: " ++ f.description) ≡ codes "description: " ++ f.description
    → trim_space f.description ≡ f.description
    → trim_space f.body ≡ f.body
    → parse_frontmatter (printed f) ≡ f
unfolding parse_frontmatter trim_bom has_prefix described
parse_frontmatter-printed f line whole trimmed body =
    let d = f.description in
    let rest = described d ++ behind_description f.always_apply f.body in
    ap (fenced_at (printed f) rest) (index-printed d f.body f.always_apply line)
    ∙ ap₂
        (λ lines b. read_lines lines (record { description = []; always_apply = false; body = b }))
        (meta-printed d f.body f.always_apply line) (body-printed d f.body f.always_apply body)
    ∙ read_lines-printed d f.body f.always_apply whole trimmed
