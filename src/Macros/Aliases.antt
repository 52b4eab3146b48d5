-- ===== src/Macros/Aliases.antt =====
-- sqlx-data-macros/src/alias_system.rs: `AliasManager`. The HashMap is the list of its entries in
-- the order in which it iterates. The regex ALIAS_PATTERN is a parameter.
pub mod Expansion
pub mod Substitution
pub mod Escaping
pub mod Injection
use sqlx_data.Prelude.{
  ℕ, zero, suc, Text, codes, text_eq, contains, Bool, true, false, not, List, [], ◌∷◌, ◌++◌, length,
  map, is_empty, Option, none, some, if◌then◌else◌,
}
use sqlx_data.Prelude.Texts.Methods.{has_text, replace, split, split_once, trim, join}
use sqlx_data.Error.{Result, ok, err, ◌>>=◌}
use sqlx_data.Macros.SynResult.{SynResult}

abbrev pub Entries : Type 0
Entries = List (Text × Text)

pub record AliasManager : Type 0 where
  pub aliases : Entries

abbrev pub new : AliasManager
new = record { aliases = [] }

-- `HashMap::insert`
unfoldable pub insert : {V : Type 0} → Text → V → List (Text × V) → List (Text × V)
insert name content [] = (name, content) ∷ []
insert name content ((n, c) ∷ entries) =
    let rest = insert name content entries in
    if text_eq n name then (name, content) ∷ entries else (n, c) ∷ rest

abbrev pub add_alias : Text → Text → AliasManager → AliasManager
add_alias name content m = record { aliases = insert name content m.aliases }

abbrev pub has_aliases : AliasManager → Bool
has_aliases m = not (is_empty m.aliases)

abbrev pub pattern_of : Text → Text
pattern_of name = codes "{{" ++ (name ++ codes "}}")

abbrev pub circular : Text → Text
circular name = codes "Circular alias reference detected: " ++ name

abbrev pub unresolved : Text → Text
unresolved name = codes "Unresolved alias: {{ " ++ (name ++ codes " }}")

-- The text, the names that were substituted, and whether this round has substituted any.
pub record Round : Type 0 where
  pub result : Text
  pub substituted : List Text
  pub changed : Bool

-- One alias of a round.
unfoldable pub visit : Text → Text → Round → SynResult Round
visit name content r =
    if not (has_text r.result (pattern_of name))
    then ok r
    else if contains r.substituted name
    then err (circular name)
    else ok (record {
      result = replace (pattern_of name) content r.result;
      substituted = name ∷ r.substituted;
      changed = true;
    })

-- The `for` loop.
unfoldable pub visit_all : Entries → Round → SynResult Round
unfolding visit
visit_all [] r = ok r
visit_all ((name, content) ∷ entries) r = visit name content r >>= visit_all entries

-- What follows a round: an error ends the loop, and so does a round without a change.
abbrev pub after_round :
    (Text → List Text → Option (SynResult Text)) → SynResult Round → Option (SynResult Text)
after_round again (err e) = some (err e)
after_round again (ok r) = elim (r.changed) [
  | true ↦ again r.result r.substituted
  | false ↦ some (ok r.result)
]

abbrev pub start_round : Text → List Text → Round
start_round result substituted = record {
  result = result;
  substituted = substituted;
  changed = false;
}

-- The `loop`, on fuel; `none` means that the fuel ran out.
unfoldable pub rounds : ℕ → Entries → Text → List Text → Option (SynResult Text)
unfolding visit_all
rounds zero entries result substituted = none
rounds (suc fuel) entries result substituted =
    after_round (rounds fuel entries) (visit_all entries (start_round result substituted))

module _ (captures : Text → Result Text (Option Text)) where
  abbrev pub checked : Result Text (Option Text) → SynResult (Unit {0})
  checked (ok (some name)) = err (unresolved name)
  checked _ = ok tt

  -- An error of the regex counts as no match.
  unfoldable pub validate_no_unresolved_aliases : Text → SynResult (Unit {0})
  validate_no_unresolved_aliases sql = checked (captures sql)

  abbrev pub finish : Option (SynResult Text) → Option (SynResult Text)
  finish none = none
  finish (some (err e)) = some (err e)
  finish (some (ok t)) = some (validate_no_unresolved_aliases t >>= λ _. ok t)

  -- A round that goes on has substituted a new alias, so that there is one more round than aliases
  -- at most.
  unfoldable pub substitute_aliases : AliasManager → Text → Option (SynResult Text)
  unfolding validate_no_unresolved_aliases rounds
  substitute_aliases m sql = finish (rounds (suc (length m.aliases)) m.aliases sql [])

abbrev pub quote : Text
quote = b'"' ∷ []

abbrev pub semicolon : Text
semicolon = b';' ∷ []

-- Also of `ScopeManager::serialize_for_injection`.
unfoldable pub escape_content : Text → Text
unfolding replace
escape_content s = replace semicolon (codes "\\;") (replace quote (codes "\\\"") s)

unfoldable pub unescape_content : Text → Text
unfolding replace
unescape_content s = replace (codes "\\;") semicolon (replace (codes "\\\"") quote s)

unfoldable pub serialize_entry : Text × Text → Text
unfolding escape_content
serialize_entry (name, content) = name ++ (b'=' ∷ escape_content content)

unfoldable pub serialize_for_injection : AliasManager → Text
unfolding serialize_entry join
serialize_for_injection m =
    if is_empty m.aliases then [] else join semicolon (map serialize_entry m.aliases)

abbrev pub invalid_format : Text → Text
invalid_format pair = codes "Invalid alias format in injection: '" ++ (pair ++ codes "'")

unfoldable pub read_pair : Text → AliasManager → SynResult AliasManager
unfolding unescape_content insert
read_pair pair m = elim (split_once b'=' pair) [
  | none ↦ err (invalid_format pair)
  | some (name, escaped) ↦ ok (add_alias (trim name) (unescape_content escaped) m)
]

unfoldable pub read_pairs : List Text → AliasManager → SynResult AliasManager
unfolding read_pair
read_pairs [] m = ok m
read_pairs (pair ∷ pairs) m =
    let rest : AliasManager → SynResult AliasManager = read_pairs pairs in
    if is_empty (trim pair) then rest m else read_pair (trim pair) m >>= rest

unfoldable pub deserialize_from_injection : Text → SynResult AliasManager
unfolding read_pairs
deserialize_from_injection serialized =
    if is_empty (trim serialized) then ok new else read_pairs (split b';' serialized) new
