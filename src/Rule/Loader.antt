-- ===== src/Rule/Loader.antt =====
-- rule/loader.go: the rules in a file or under a directory.
use simple_agent_framework.Prelude.{List, [], ◌∷◌, none, some, if◌then◌else◌}
use simple_agent_framework.Prelude.Text.{Text}
use simple_agent_framework.Errors.{Result, ok, err}
use simple_agent_framework.FrontMatter.{parse_frontmatter}
use simple_agent_framework.FrontMatter.Files.{Files, Visit, is_markdown, file_name}
use simple_agent_framework.Rule.{FileRule, new_file_rule}

module _ (fs : Files) where
  abbrev rule_of : Text → Result Text → Result FileRule
  rule_of path (err e) = err e
  rule_of path (ok data_text) =
      let f = parse_frontmatter data_text in
      ok (new_file_rule (file_name fs path) f.description f.body f.always_apply)

  unfoldable pub from_file : Text → Result FileRule
  from_file path = rule_of path (fs.read_file path)

  abbrev put_in_front : FileRule → Result (List FileRule) → Result (List FileRule)
  put_in_front r (ok rs) = ok (r ∷ rs)
  put_in_front r (err e) = err e

  -- The walk ends at the first error.
  unfoldable pub load_visits : List Visit → Result (List FileRule)
  load_visits [] = ok []
  load_visits (v ∷ vs) =
      let rest = load_visits vs in
      elim v.error [
        | some e ↦ err e
        | none ↦
            (if v.is_dir
              then rest
              else (if is_markdown fs v.path
                  then elim (from_file v.path) [ ok r ↦ put_in_front r rest | err e ↦ err e ]
                  else rest))
      ]

  unfoldable pub load_dir : Text → Result (List FileRule)
  load_dir path = load_visits (fs.walk path)

  abbrev alone : Result FileRule → Result (List FileRule)
  alone (ok r) = ok (r ∷ [])
  alone (err e) = err e

  unfoldable pub load_path : Text → Result (List FileRule)
  load_path path = elim (fs.stat path) [
    | err e ↦ err e
    | ok is_dir ↦
        (if is_dir
          then load_dir path
          else (if is_markdown fs path then alone (from_file path) else ok []))
  ]
