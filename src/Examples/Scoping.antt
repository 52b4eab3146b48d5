-- ===== src/Examples/Scoping.antt =====
-- Scopes on a query. The parser knows the texts of the example only.
use sqlx_data.Prelude.{
  ℕ, ◌==◌, ◌≡◌, refl, Text, codes, text_eq, contains, Bool, true, false, ◌&&◌, [], ◌∷◌, Option,
  none, some, if◌then◌else◌,
}
use sqlx_data.Prelude.Texts.Methods.{trim, split, split_once, rsplit_once}
use sqlx_data.Error.{ok, err}
use sqlx_data.Macros.SynResult.{SynResult}
use sqlx_data.Core.Tree.{
  Expr, binary_op, other_expr, Operator, Query, query_of, SetExpr, select, Select, select_of,
  no_table, expressions, Statement, body_of, selection_of,
}
use sqlx_data.Macros.Scopes.{
  ScopeTarget, where_target, ScopeDefinition, Scopes, ScopeManager, has_active_scopes, not_ignored,
  with_target,
}
use sqlx_data.Macros.Scopes.Injection.{serialize_for_injection, deserialize_from_injection}
use sqlx_data.Macros.Scopes.Clauses.{and, parsed}
use sqlx_data.Macros.Scopes.Apply.{apply_scopes_to_sql}
use sqlx_data.Macros.Scopes.Holds.Active.{IsApplied, apply_scopes_to_sql-IsApplied}

-- A condition is a number, of which 1 holds.
abbrev eval : Expr ℕ → Bool
eval (binary_op left Operator.and right) = eval left && eval right
eval (other_expr n) = n == 1
eval _ = false

abbrev where_is : Option (Expr ℕ) → Query ℕ
where_is cond =
    query_of none (select (select_of none none [] no_table cond (expressions [] []) none 0)) none
      none none 0

abbrev sql : Text
sql = codes "SELECT name FROM users WHERE old"

abbrev parse_sql : Text → SynResult (Option (Statement ℕ))
parse_sql t =
    if text_eq t sql
    then ok (some (Statement.query (where_is (some (other_expr 7)))))
    else if text_eq t (codes "SELECT 1 WHERE tenant")
    then ok (some (Statement.query (where_is (some (other_expr 1)))))
    else ok none

-- How many conditions are joined, in strokes.
abbrev print_expr : Expr ℕ → Text
print_expr (binary_op left Operator.and right) = b'|' ∷ print_expr left
print_expr _ = []

abbrev print_where : Option (Expr ℕ) → Text
print_where none = []
print_where (some c) = print_expr c

abbrev print_body : SetExpr ℕ → Text
print_body (select s) = print_where (selection_of s)
print_body _ = []

abbrev print : Query ℕ → Text
print q = print_body (body_of q)

abbrev tenant : ScopeDefinition
tenant = record { name = codes "tenant"; sql = codes "tenant"; target = where_target }

abbrev deleted : ScopeDefinition
deleted = record { name = codes "deleted"; sql = codes "deleted"; target = where_target }

abbrev manager : ScopeManager
manager = record {
  scopes = (codes "tenant", tenant) ∷ (codes "deleted", deleted) ∷ [];
  ignored_scopes = codes "deleted" ∷ [];
}

abbrev same_order : Scopes → Scopes
same_order l = l

eval-and : (a b : Expr ℕ) → eval (and a b) ≡ (eval a && eval b)
eval-and a b = refl

has_one : has_active_scopes manager ≡ true
unfolding not_ignored contains text_eq
has_one = refl

made : apply_scopes_to_sql parse_sql print same_order manager sql ≡ ok (codes "|")
unfolding apply_scopes_to_sql not_ignored with_target contains text_eq
made = refl

apply_scopes_to_sql-IsApplied_example :
    (q : Query ℕ) × (s : Select ℕ) × (q' : Query ℕ) × (s' : Select ℕ) × (parsed parse_sql sql
      ≡ ok (Statement.query q))
    × (body_of q ≡ select s)
    × (codes "|" ≡ print q')
    × (body_of q' ≡ select s')
    × IsApplied eval eval-and parse_sql manager s s'
apply_scopes_to_sql-IsApplied_example =
    apply_scopes_to_sql-IsApplied eval eval-and same_order (λ l n d. ((λ a. a), λ a. a)) parse_sql
      print manager sql (codes "|") has_one made

abbrev concatenated : ScopeManager
concatenated = record {
  scopes =
      (codes "n", record { name = codes "n"; sql = codes "a || b"; target = ScopeTarget.select })
      ∷ [];
  ignored_scopes = [];
}

-- The attribute is cut at every stroke, so a scope with `||` is not read back.
cut_at_stroke :
    deserialize_from_injection (λ t. t) (serialize_for_injection concatenated)
    ≡ err (codes "Invalid scope format, missing target: 'n=a '")
unfolding deserialize_from_injection serialize_for_injection trim split split_once text_eq
    rsplit_once
cut_at_stroke = refl
