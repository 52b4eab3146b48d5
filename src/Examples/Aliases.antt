-- ===== src/Examples/Aliases.antt =====
-- Aliases and sources of SQL.
use sqlx_data.Prelude.{◌≡◌, refl, Text, codes, [], ◌∷◌, Option, none, some, contains, text_eq}
use sqlx_data.Prelude.Texts.Methods.{
  has_text, has_char, ends_with, replace, trim, split, split_once, is_whitespace,
}
use sqlx_data.Error.{Result, ok, err}
use sqlx_data.Macros.SynResult.{SynResult}
use sqlx_data.Macros.Aliases.{
  AliasManager, substitute_aliases, serialize_for_injection, deserialize_from_injection,
}
use sqlx_data.Macros.Aliases.Substitution.{IsAnswer, substitute_aliases_settles}
use sqlx_data.Macros.Aliases.Injection.{IsPlain, AreDistinct, deserialize-serialize}
use sqlx_data.Macros.Source.{SqlSource, Files, resolve_content}
use sqlx_data.Macros.Source.Inside.{ComesFrom, resolve_content-ComesFrom}

abbrev table : Text × Text
table = (codes "t", codes "users")

abbrev rows : Text × Text
rows = (codes "rows", codes "SELECT * FROM {{t}}")

abbrev counted : Text × Text
counted = (codes "c", codes "COUNT(*)")

abbrev manager : AliasManager
manager = record { aliases = rows ∷ table ∷ [] }

-- The map iterates in another order.
abbrev other_order : AliasManager
other_order = record { aliases = table ∷ rows ∷ [] }

abbrev no_match : Text → Result Text (Option Text)
no_match t = ok none

abbrev sql : Text
sql = codes "{{rows}} WHERE id IN (SELECT id FROM {{t}})"

-- With one order the text is made.
substituted :
    substitute_aliases no_match manager sql
    ≡ some (ok (codes "SELECT * FROM users WHERE id IN (SELECT id FROM users)"))
unfolding substitute_aliases has_text contains replace text_eq
substituted = refl

-- With the other, the alias `t`, which `rows` mentions, is taken for a circular one.
refused :
    substitute_aliases no_match other_order sql
    ≡ some (err (codes "Circular alias reference detected: t"))
unfolding substitute_aliases has_text contains replace text_eq
refused = refl

substitute_aliases_settles_example :
    (r : SynResult Text) × (substitute_aliases no_match manager sql ≡ some r)
    × IsAnswer no_match manager.aliases sql r
substitute_aliases_settles_example = substitute_aliases_settles no_match manager sql

-- With a semicolon in a content, the alias is not read back.
cut :
    deserialize_from_injection
      (serialize_for_injection (record { aliases = (codes "a", codes "x; y") ∷ [] }))
    ≡ err (codes "Invalid alias format in injection: 'y'")
unfolding deserialize_from_injection serialize_for_injection trim split split_once
cut = refl

rows-IsPlain : IsPlain rows
unfolding has_char is_whitespace
rows-IsPlain = record {
  name_starts = refl;
  name_ends = refl;
  name_without_equals = refl;
  name_without_semicolon = refl;
  content_without_semicolon = refl;
  content_ends = refl;
}

table-IsPlain : IsPlain table
unfolding has_char is_whitespace
table-IsPlain = record {
  name_starts = refl;
  name_ends = refl;
  name_without_equals = refl;
  name_without_semicolon = refl;
  content_without_semicolon = refl;
  content_ends = refl;
}

names_distinct : AreDistinct [] manager.aliases
unfolding text_eq
names_distinct = (tt, ((refl, tt), tt))

deserialize-serialize_example :
    deserialize_from_injection (serialize_for_injection manager) ≡ ok manager
deserialize-serialize_example =
    deserialize-serialize manager (rows-IsPlain, (table-IsPlain, tt)) names_distinct

abbrev files : Files
files = record {
  manifest_dir = some (codes "/app");
  join = λ dir path. dir;
  read_to_string = λ path. ok (codes "SELECT 1");
}

resolve_content-ComesFrom_example :
    ComesFrom files (SqlSource.file (codes "q/a.sql")) (codes "SELECT 1")
unfolding resolve_content has_text ends_with has_char
resolve_content-ComesFrom_example =
    resolve_content-ComesFrom files (SqlSource.file (codes "q/a.sql")) (codes "SELECT 1") refl
