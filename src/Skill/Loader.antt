-- ===== src/Skill/Loader.antt =====
-- skill/loader.go: the skills in a file, in a directory, or in the directories of one.
use simple_agent_framework.Prelude.{Bool, List, [], ◌∷◌, if◌then◌else◌}
use simple_agent_framework.Prelude.Text.{Text, codes}
use simple_agent_framework.Errors.{Error, Result, ok, err}
use simple_agent_framework.FrontMatter.{parse_frontmatter}
use simple_agent_framework.FrontMatter.Files.{Files, is_markdown, file_name}
use simple_agent_framework.Skill.{DirSkill, new_dir_skill, with_always_apply}

module _ {T : Type 0} (fs : Files) where
  abbrev skill_of : Text → Text → List (DirSkill T → DirSkill T) → Result Text → Result (DirSkill T)
  skill_of name base_path opts (err e) = err e
  skill_of name base_path opts (ok data_text) =
      let f = parse_frontmatter data_text in
      ok (
        new_dir_skill name f.description base_path f.body (with_always_apply f.always_apply ∷ opts))

  unfoldable pub from_dir : Text → List (DirSkill T → DirSkill T) → Result (DirSkill T)
  from_dir path opts =
      skill_of (fs.base (fs.clean path)) path opts
        (fs.read_file (fs.join_path path (codes "skill.md")))

  unfoldable pub from_file : Text → List (DirSkill T → DirSkill T) → Result (DirSkill T)
  from_file path opts = skill_of (file_name fs path) (fs.dir path) opts (fs.read_file path)

  abbrev put_in_front :
      Result (DirSkill T) → Result (List (DirSkill T)) → Result (List (DirSkill T))
  put_in_front (ok s) (ok ss) = ok (s ∷ ss)
  put_in_front (ok s) (err e) = err e
  put_in_front (err e) rest = err e

  -- A directory without the file is passed over; any other error of `Stat` ends the loop.
  abbrev if_present :
      Result Bool → Result (DirSkill T) → Result (List (DirSkill T)) → Result (List (DirSkill T))
  if_present (ok is_dir) s rest = put_in_front s rest
  if_present (err Error.not_exist) s rest = rest
  if_present (err e) s rest = err e

  unfoldable pub load_entries : Text → List (Text × Bool) → Result (List (DirSkill T))
  load_entries path [] = ok []
  load_entries path ((name, is_dir) ∷ entries) =
      let rest = load_entries path entries in
      let sub = fs.join_path path name in
      if is_dir
      then if_present (fs.stat (fs.join_path sub (codes "skill.md"))) (from_dir sub []) rest
      else rest

  unfoldable pub load_dir : Text → Result (List (DirSkill T))
  load_dir path = elim (fs.read_dir path) [ err e ↦ err e | ok entries ↦ load_entries path entries ]

  unfoldable pub load_path : Text → Result (List (DirSkill T))
  load_path path = elim (fs.stat path) [
    | err e ↦ err e
    | ok is_dir ↦
        (if is_dir
          then elim (fs.stat (fs.join_path path (codes "skill.md"))) [
            | ok _ ↦ put_in_front (from_dir path []) (ok [])
            | err e ↦ load_dir path
          ]
          else (if is_markdown fs path then put_in_front (from_file path []) (ok []) else ok []))
  ]
