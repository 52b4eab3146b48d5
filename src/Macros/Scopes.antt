-- ===== src/Macros/Scopes.antt =====
-- sqlx-data-macros/src/scope_system.rs: `ScopeManager`. The HashMap is the list of its entries in the order in
-- which it iterates; the one of the active scopes iterates in an order of its own, a parameter.
pub mod Injection
pub mod Clauses
pub mod Apply
pub mod Holds
use sqlx_data.Prelude.{
  Text, codes, text_eq, contains, Bool, true, false, not, ◌||◌, List, [], ◌∷◌, ◌++◌, map, is_empty,
  if◌then◌else◌,
}
use sqlx_data.Error.{Result, ok, err, ◌>>=◌}
use sqlx_data.Macros.SynResult.{SynResult}
use sqlx_data.Macros.Aliases.{insert}

-- `where_target` is the source's `Where`.
pub data ScopeTarget : Type 0 where
  select from join where_target group_by having order_by : ScopeTarget

abbrev pub invalid_target : Text → Text
invalid_target s =
    codes "Invalid scope target: '"
    ++ (s ++ codes "'. Valid targets: select, from, join, where, group_by, having, order_by")

-- `to_lowercase` is a parameter.
unfoldable pub from_string : (Text → Text) → Text → SynResult ScopeTarget
from_string to_lowercase s =
    let lower = to_lowercase s in
    if text_eq lower (codes "select")
    then ok select
    else if text_eq lower (codes "from")
    then ok from
    else if text_eq lower (codes "join")
    then ok join
    else if text_eq lower (codes "where")
    then ok where_target
    else if text_eq lower (codes "group_by") || text_eq lower (codes "groupby")
    then ok group_by
    else if text_eq lower (codes "having")
    then ok having
    else if text_eq lower (codes "order_by") || text_eq lower (codes "orderby")
    then ok order_by
    else err (invalid_target s)

-- As `serialize_for_injection` writes it.
abbrev pub target_str : ScopeTarget → Text
target_str select = codes "select"
target_str from = codes "from"
target_str join = codes "join"
target_str where_target = codes "where"
target_str group_by = codes "group_by"
target_str having = codes "having"
target_str order_by = codes "order_by"

abbrev pub target_eq : ScopeTarget → ScopeTarget → Bool
target_eq select select = true
target_eq from from = true
target_eq join join = true
target_eq where_target where_target = true
target_eq group_by group_by = true
target_eq having having = true
target_eq order_by order_by = true
target_eq _ _ = false

pub record ScopeDefinition : Type 0 where
  pub name : Text
  pub sql : Text
  pub target : ScopeTarget

abbrev pub Scopes : Type 0
Scopes = List (Text × ScopeDefinition)

pub record ScopeManager : Type 0 where
  pub scopes : Scopes
  pub ignored_scopes : List Text

abbrev pub new : ScopeManager
new = record { scopes = []; ignored_scopes = [] }

abbrev pub add_scope : Text → Text → ScopeTarget → ScopeManager → ScopeManager
add_scope scope_name sql target m = record {
  scopes = insert scope_name (record { name = scope_name; sql = sql; target = target }) m.scopes;
  ignored_scopes = m.ignored_scopes;
}

abbrev pub add_ignored_scope : Text → ScopeManager → ScopeManager
add_ignored_scope scope_name m = record {
  scopes = m.scopes;
  ignored_scopes = m.ignored_scopes ++ (scope_name ∷ []);
}

unfoldable pub not_ignored : List Text → Scopes → Scopes
not_ignored ignored [] = []
not_ignored ignored ((scope_name, d) ∷ scopes) =
    let rest = not_ignored ignored scopes in
    if contains ignored scope_name then rest else (scope_name, d) ∷ rest

-- Before they are collected into a map.
abbrev pub get_active_scopes : ScopeManager → Scopes
get_active_scopes m = not_ignored m.ignored_scopes m.scopes

abbrev pub has_active_scopes : ScopeManager → Bool
has_active_scopes m = not (is_empty (get_active_scopes m))

unfoldable pub with_target : ScopeTarget → Scopes → List ScopeDefinition
with_target t [] = []
with_target t ((scope_name, d) ∷ scopes) =
    let rest = with_target t scopes in if target_eq d.target t then d ∷ rest else rest

-- What the map holds at a target, and no scope if it has no entry.
abbrev pub get_scopes_by_target :
    (Scopes → Scopes) → ScopeManager → ScopeTarget → List ScopeDefinition
get_scopes_by_target order m t = with_target t (order (get_active_scopes m))
