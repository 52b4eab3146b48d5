-- ===== src/Macros/Scopes/Injection.antt =====
-- The hidden attribute that carries the scopes of a trait to its methods.
use sqlx_data.Prelude.{
  Text, codes, text_eq, ◌&&◌, List, [], ◌∷◌, ◌++◌, map, is_empty, Option, none, some, if◌then◌else◌,
}
use sqlx_data.Prelude.Texts.Methods.{split, split_once, rsplit_once, trim, join}
use sqlx_data.Error.{ok, err, ◌>>=◌}
use sqlx_data.Macros.SynResult.{SynResult}
use sqlx_data.Macros.Aliases.{semicolon, escape_content, unescape_content}
use sqlx_data.Macros.Scopes.{
  ScopeDefinition, ScopeManager, new, add_scope, add_ignored_scope, target_str, from_string,
}

abbrev pub serialize_entry : Text × ScopeDefinition → Text
serialize_entry (scope_name, d) =
    scope_name ++ (b'=' ∷ (escape_content d.sql ++ (b':' ∷ target_str d.target)))

abbrev scopes_part : ScopeManager → List Text
scopes_part m =
    if is_empty m.scopes
    then []
    else (codes "scopes:" ++ join semicolon (map serialize_entry m.scopes)) ∷ []

abbrev ignored_part : ScopeManager → List Text
ignored_part m =
    if is_empty m.ignored_scopes
    then []
    else (codes "ignore:" ++ join (b',' ∷ []) m.ignored_scopes) ∷ []

unfoldable pub serialize_for_injection : ScopeManager → Text
unfolding escape_content join
serialize_for_injection m =
    if is_empty m.scopes && is_empty m.ignored_scopes
    then []
    else join (b'|' ∷ []) (scopes_part m ++ ignored_part m)

module _ (to_lowercase : Text → Text) where
  abbrev pub missing_target : Text → Text
  missing_target entry = codes "Invalid scope format, missing target: '" ++ (entry ++ codes "'")

  abbrev pub with_sql_and_target :
      Text → Text → Option (Text × Text) → ScopeManager → SynResult ScopeManager
  with_sql_and_target entry scope_name none m = err (missing_target entry)
  with_sql_and_target entry scope_name (some (sql_content, target)) m =
      from_string to_lowercase target >>= λ t.
      ok (add_scope (trim scope_name) (unescape_content sql_content) t m)

  -- An entry without `=` is skipped.
  abbrev pub read_scope : Text → Option (Text × Text) → ScopeManager → SynResult ScopeManager
  read_scope entry none m = ok m
  read_scope entry (some (scope_name, sql_and_target)) m =
      with_sql_and_target entry scope_name (rsplit_once b':' sql_and_target) m

  unfoldable pub read_scopes : List Text → ScopeManager → SynResult ScopeManager
  unfolding from_string
  read_scopes [] m = ok m
  read_scopes (entry ∷ entries) m =
      read_scope entry (split_once b'=' entry) m >>= read_scopes entries

  unfoldable pub read_ignored : List Text → ScopeManager → ScopeManager
  read_ignored [] m = m
  read_ignored (scope ∷ scopes) m =
      let rest : ScopeManager → ScopeManager = read_ignored scopes in
      if is_empty (trim scope) then rest m else rest (add_ignored_scope (trim scope) m)

  abbrev pub invalid_format : Text → Text
  invalid_format part = codes "Invalid scope format in injection: '" ++ (part ++ codes "'")

  abbrev pub invalid_prefix : Text → Text
  invalid_prefix prefix = codes "Invalid scope prefix in injection: '" ++ (prefix ++ codes "'")

  abbrev pub read_part : Text → Option (Text × Text) → ScopeManager → SynResult ScopeManager
  read_part part none m = err (invalid_format part)
  read_part part (some (prefix, content)) m =
      if text_eq prefix (codes "scopes")
      then read_scopes (split b';' content) m
      else if text_eq prefix (codes "ignore")
      then ok (read_ignored (split b',' content) m)
      else err (invalid_prefix prefix)

  unfoldable pub read_parts : List Text → ScopeManager → SynResult ScopeManager
  unfolding read_scopes read_ignored
  read_parts [] m = ok m
  read_parts (part ∷ parts) m = read_part part (split_once b':' part) m >>= read_parts parts

  unfoldable pub deserialize_from_injection : Text → SynResult ScopeManager
  unfolding read_parts
  deserialize_from_injection serialized =
      if is_empty (trim serialized) then ok new else read_parts (split b'|' (trim serialized)) new
