-- ===== src/Macros/Source.antt =====
-- sqlx-data-macros/src/type_system.rs: `SqlSource`. The environment variable CARGO_MANIFEST_DIR,
-- `Path::join` and the file system are parameters.
pub mod Inside
use sqlx_data.Prelude.{
  ℕ, ◌==◌, leb, Text, codes, Bool, true, false, ◌&&◌, ◌||◌, List, [], ◌∷◌, ◌++◌, length, Option,
  none, some, first, get_elem?, if◌then◌else◌,
}
use sqlx_data.Prelude.Texts.Methods.{has_text, has_char, ends_with}
use sqlx_data.Error.{Result, ok, err, ◌>>=◌, map_err}
use sqlx_data.Macros.SynResult.{SynResult}

pub data SqlSource : Type 0 where
  inline file : Text → SqlSource

-- `read_to_string` gives the content or the text of its error.
pub record Files : Type 0 where
  pub manifest_dir : Option Text
  pub join : Text → Text → Text
  pub read_to_string : Text → Result Text Text

abbrev is_char : ℕ → Option ℕ → Bool
is_char d none = false
is_char d (some c) = c == d

-- The length of the source is in bytes; a path with a second character has two bytes at least.
abbrev pub has_drive : Text → Bool
has_drive path = leb 2 (length path) && is_char b':' (get_elem? path 1)

abbrev pub is_absolute : Text → Bool
is_absolute path = is_char b'/' (first path) || is_char b'\\' (first path)

unfoldable pub validate_file_path : Text → SynResult (Unit {0})
validate_file_path path =
    if has_text path (codes "..")
    then err (codes "File path cannot contain '..' (path traversal prevented for security)")
    else if is_absolute path
    then err (codes "File path must be relative (absolute paths not allowed for security)")
    else if has_drive path
    then err
        (codes "File path cannot contain drive letters (absolute paths not allowed for security)")
    else if ends_with path (codes ".sql")
    then (if has_char path 0 then err (codes "File path cannot contain null bytes") else ok tt)
    else err (codes "Only .sql files are allowed for security reasons")

module _ (files : Files) where
  abbrev pub failed_to_read : Text → Text → Text
  failed_to_read path e = codes "Failed to read SQL file '" ++ (path ++ (codes "': " ++ e))

  -- `or_else`: the error of the first attempt is dropped.
  abbrev pub or_else : Result Text Text → Text → Result Text Text
  or_else (ok content) path = ok content
  or_else (err e) path = files.read_to_string path

  abbrev pub read_from : Option Text → Text → Result Text Text
  read_from (some dir) path = or_else (files.read_to_string (files.join dir path)) path
  read_from none path = files.read_to_string path

  unfoldable pub read_file_content : Text → SynResult Text
  unfolding validate_file_path
  read_file_content path = validate_file_path path >>= λ _.
      map_err (failed_to_read path) (read_from files.manifest_dir path)

  unfoldable pub resolve_content : SqlSource → SynResult Text
  unfolding read_file_content
  resolve_content (SqlSource.inline sql) = ok sql
  resolve_content (SqlSource.file path) = read_file_content path
