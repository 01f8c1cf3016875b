-- ===== src/FrontMatter/Files.antt =====
-- What the loaders of rule/loader.go and skill/loader.go call of the packages os and path/filepath.
use simple_agent_framework.Prelude.{Bool, List, Option, if◌then◌else◌, ◌-◌, length, take, reverse}
use simple_agent_framework.Prelude.Text.{Text, codes, has_prefix, to_lower, text_eq}
use simple_agent_framework.Errors.{Error, Result}

-- What `filepath.WalkDir` calls its function with, in its order.
pub record Visit : Type 0 where
  pub path : Text
  pub is_dir : Bool
  pub error : Option Error

-- The files as they are while a loader runs. `stat` tells whether a path is a directory, `read_dir` the
-- names in one and which are directories.
pub record Files : Type 0 where
  pub stat : Text → Result Bool
  pub read_file : Text → Result Text
  pub read_dir : Text → Result (List (Text × Bool))
  pub walk : Text → List Visit
  pub base : Text → Text
  pub ext : Text → Text
  pub dir : Text → Text
  pub clean : Text → Text
  pub join_path : Text → Text → Text

-- `strings.EqualFold(filepath.Ext(path), ".md")`
abbrev pub is_markdown : Files → Text → Bool
is_markdown fs path = text_eq (to_lower (fs.ext path)) (codes ".md")

-- `strings.TrimSuffix(s, p)`
abbrev trim_suffix : Text → Text → Text
trim_suffix s p = if has_prefix (reverse s) (reverse p) then take (length s - length p) s else s

-- The name of a file, without its extension.
abbrev pub file_name : Files → Text → Text
file_name fs path = trim_suffix (fs.base path) (fs.ext path)
