-- ===== src/Macros/Scopes/Holds.antt =====
-- Which rows pass the clauses of a query to which scopes are applied.
pub mod Active
use sqlx_data.Prelude.{
  ◌≡◌, ◌↔◌, refl, sym, ap, ◌∙◌, Text, Bool, true, false, ◌&&◌, List, [], ◌∷◌, ◌++◌, is_empty,
  Option, none, some, All, arith, if◌then◌else◌,
}
use sqlx_data.Error.{Result, ok, err, ◌>>=◌, split_ok}
use sqlx_data.Macros.SynResult.{SynResult}
use sqlx_data.Macros.Scopes.{ScopeTarget, ScopeDefinition}
use sqlx_data.Macros.Scopes.Clauses.{
  parse_scope_as_select_item, build_order_by_expressions, add_from, add_joins, add_groups, and,
  all_of, collect, combine_where_conditions, where_condition, having_condition, with_existing,
}
use sqlx_data.Macros.Scopes.Apply.{
  with_order, combined, apply_to, add_where, add_items, add_tables, add_joined, add_group,
  add_having,
}
use sqlx_data.Core.Tree.{
  OrderBy, set_order_by, set_body, order_by_of, Expr, Query, query_of, SetExpr, select, Select,
  select_of, Statement, selection_of, having_of, set_selection, set_having, set_from, set_group,
  set_projection, body_of, SelectItem, Tables, GroupBy,
}

module _ {X : Type 0} (eval : Expr X → Bool)
    (eval-and : (a b : Expr X) → eval (and a b) ≡ (eval a && eval b)) where
  abbrev pub Passes : Option (Expr X) → Type 0
  Passes none = Unit
  Passes (some c) = eval c ≡ true

  abbrev pub AreTrue : List (Expr X) → Type 0
  AreTrue cs = All (λ c. eval c ≡ true) cs

  -- The condition that the scope is parsed to holds.
  abbrev pub Meets : (ScopeDefinition → SynResult (Expr X)) → ScopeDefinition → Type 0
  Meets condition scope = (c : Expr X) → condition scope ≡ ok c → eval c ≡ true

  and_iff : (a b : Expr X) → (eval (and a b) ≡ true) ↔ ((eval a ≡ true) × (eval b ≡ true))
  and_iff a b = rw (eval-and a b) (ground arith)

  all_of_iff :
      (c : Expr X) (cs : List (Expr X))
      → (eval (all_of c cs) ≡ true) ↔ ((eval c ≡ true) × AreTrue cs)
  unfolding all_of
  all_of_iff c [] = (λ e. (e, tt), λ h. h.0)
  all_of_iff c (d ∷ cs) =
      let later = all_of_iff (and c d) cs in
      let both = and_iff c d in
      (
        λ e. let h = later.0 e in let (p, q) = both.0 (h.0) in (p, (q, h.1)),
        λ h. later.1 (both.1 (h.0, h.1.0), h.1.1),
      )

  combined_iff :
      (existing : Option (Expr X)) (cs : List (Expr X)) (o : Option (Expr X))
      → combined existing cs ≡ ok o
      → Passes o ↔ (Passes existing × AreTrue cs)
  unfolding combined combine_where_conditions
  combined_iff existing [] o h =
      let same : existing ≡ o = cc in rw (← same) (λ e. (e, tt), λ p. p.0)
  combined_iff none (c ∷ cs) o h =
      let same : some (all_of c cs) ≡ o = cc in
      let all = all_of_iff c cs in rw (← same) (λ e. (tt, all.0 e), λ p. all.1 (p.1))
  combined_iff (some existing) (c ∷ cs) o h =
      let same : some (and existing (all_of c cs)) ≡ o = cc in
      let all = all_of_iff c cs in
      let both = and_iff existing (all_of c cs) in
      rw (← same) (λ e. let (p, q) = both.0 e in (p, all.0 q), λ p. both.1 (p.0, all.1 (p.1)))

  collect_iff :
      (condition : ScopeDefinition → SynResult (Expr X)) (scopes : List ScopeDefinition)
      (cs : List (Expr X))
      → collect condition scopes ≡ ok cs
      → AreTrue cs ↔ All (Meets condition) scopes
  unfolding collect
  collect_iff condition [] cs h = let same : [] ≡ cs = cc in rw (← same) (λ e. tt, λ e. tt)
  collect_iff condition (scope ∷ scopes) cs h =
      let (c, here, h') = split_ok (condition scope) h in
      let (more, later, h'') = split_ok (collect condition scopes) h' in
      let same : (c ∷ more) ≡ cs = cc in
      let rest = collect_iff condition scopes more later in
      rw (← same) (
        λ t. ((λ d e. let same' : c ≡ d = cc in rw (← same') (t.0)), rest.0 (t.1)),
        λ t. (t.0 c here, rest.1 (t.1)),
      )

  module _ (parse_sql : Text → SynResult (Option (Statement X)))
      (scopes_at : ScopeTarget → List ScopeDefinition) where
    abbrev WhereOf : Select X → Select X → Type 0
    WhereOf s s' = Passes (selection_of s') ↔ (
        Passes (selection_of s)
        × All (Meets (where_condition parse_sql)) (scopes_at ScopeTarget.where_target))

    abbrev HavingOf : Select X → Select X → Type 0
    HavingOf s s' = Passes (having_of s') ↔ (
        Passes (having_of s)
        × All (Meets (having_condition parse_sql)) (scopes_at ScopeTarget.having))

    -- A row passes the new clause if it passed the old one and all scopes at it.
    abbrev pub IsScoped : Select X → Select X → Type 0
    IsScoped s s' = WhereOf s s' × HavingOf s s'

    -- WHERE and HAVING are left as they are.
    abbrev Keeps : Select X → Select X → Type 0
    Keeps s s' = (selection_of s' ≡ selection_of s) × (having_of s' ≡ having_of s)

    add_items-Keeps : (s s' : Select X) → add_items parse_sql scopes_at s ≡ ok s' → Keeps s s'
    add_items-Keeps (select_of distinct top items from cond group having rest) s' h =
        let (x, read, h') =
          split_ok (collect (parse_scope_as_select_item parse_sql) (scopes_at ScopeTarget.select))
            h in
        let same : select_of distinct top (items ++ x) from cond group having rest ≡ s' = cc in
        rw (← same) (refl, refl)

    add_tables-Keeps : (s s' : Select X) → add_tables parse_sql scopes_at s ≡ ok s' → Keeps s s'
    add_tables-Keeps (select_of distinct top items from cond group having rest) s' h =
        let (x, read, h') = split_ok (add_from parse_sql (scopes_at ScopeTarget.from) from) h in
        let same : select_of distinct top items x cond group having rest ≡ s' = cc in
        rw (← same) (refl, refl)

    add_joined-Keeps : (s s' : Select X) → add_joined parse_sql scopes_at s ≡ ok s' → Keeps s s'
    add_joined-Keeps (select_of distinct top items from cond group having rest) s' h =
        let (x, read, h') = split_ok (add_joins parse_sql (scopes_at ScopeTarget.join) from) h in
        let same : select_of distinct top items x cond group having rest ≡ s' = cc in
        rw (← same) (refl, refl)

    add_group-Keeps : (s s' : Select X) → add_group parse_sql scopes_at s ≡ ok s' → Keeps s s'
    add_group-Keeps (select_of distinct top items from cond group having rest) s' h =
        let (x, read, h') =
          split_ok (add_groups parse_sql (scopes_at ScopeTarget.group_by) group) h in
        let same : select_of distinct top items from cond x having rest ≡ s' = cc in
        rw (← same) (refl, refl)

    add_where-WhereOf :
        (s s' : Select X)
        → add_where parse_sql scopes_at s ≡ ok s'
        → WhereOf s s' × (having_of s' ≡ having_of s)
    add_where-WhereOf (select_of distinct top items from cond group having rest) s' h =
        let build = collect (where_condition parse_sql) (scopes_at ScopeTarget.where_target) in
        let (o, both, h') = split_ok (build >>= combined cond) h in
        let (cs, read, made) = split_ok build both in
        let same : select_of distinct top items from o group having rest ≡ s' = cc in
        let passes = combined_iff cond cs o made in
        let meets =
          collect_iff (where_condition parse_sql) (scopes_at ScopeTarget.where_target) cs read in
        rw (← same) (
          (λ p. let (q, t) = passes.0 p in (q, meets.0 t), λ p. passes.1 (p.0, meets.1 (p.1))),
          refl,
        )

    add_having-HavingOf :
        (s s' : Select X)
        → add_having parse_sql scopes_at s ≡ ok s'
        → HavingOf s s' × (selection_of s' ≡ selection_of s)
    add_having-HavingOf (select_of distinct top items from cond group having rest) s' h =
        let build = collect (having_condition parse_sql) (scopes_at ScopeTarget.having) in
        let (o, both, h') = split_ok (build >>= combined having) h in
        let (cs, read, made) = split_ok build both in
        let same : select_of distinct top items from cond group o rest ≡ s' = cc in
        let passes = combined_iff having cs o made in
        let meets =
          collect_iff (having_condition parse_sql) (scopes_at ScopeTarget.having) cs read in
        rw (← same) (
          (λ p. let (q, t) = passes.0 p in (q, meets.0 t), λ p. passes.1 (p.0, meets.1 (p.1))),
          refl,
        )

    WhereOf-later :
        (s s' t : Select X) → selection_of t ≡ selection_of s' → WhereOf s s' → WhereOf s t
    WhereOf-later s s' t e h = rw e h

    HavingOf-earlier :
        (s s' t : Select X) → having_of s' ≡ having_of s → HavingOf s' t → HavingOf s t
    HavingOf-earlier s s' t e h = rw (← e) h

    body_of-set :
        (q : Query X) (s : Select X) (order : Option (OrderBy X))
        → body_of (set_order_by order (set_body (select s) q)) ≡ select s
    body_of-set (query_of cte body order_by limit fetch rest) s order = refl

    -- The query that is made has a SELECT again.
    pub apply_to-IsScoped :
        (q q' : Query X) (s : Select X)
        → apply_to parse_sql scopes_at q s ≡ ok q'
        → (s' : Select X) × (body_of q' ≡ select s') × IsScoped s s'
    unfolding apply_to
    apply_to-IsScoped q q' s h =
        let (s1, e1, h1) = split_ok (add_where parse_sql scopes_at s) h in
        let (s2, e2, h2) = split_ok (add_items parse_sql scopes_at s1) h1 in
        let (exprs, e, h3) =
          split_ok (build_order_by_expressions parse_sql (scopes_at ScopeTarget.order_by)) h2 in
        let (s3, e3, h4) = split_ok (add_tables parse_sql scopes_at s2) h3 in
        let (s4, e4, h5) = split_ok (add_joined parse_sql scopes_at s3) h4 in
        let (s5, e5, h6) = split_ok (add_group parse_sql scopes_at s4) h5 in
        let (s6, e6, h7) = split_ok (add_having parse_sql scopes_at s5) h6 in
        let (wheres, having1) = add_where-WhereOf s s1 e1 in
        let (sel2, hav2) = add_items-Keeps s1 s2 e2 in
        let (sel3, hav3) = add_tables-Keeps s2 s3 e3 in
        let (sel4, hav4) = add_joined-Keeps s3 s4 e4 in
        let (sel5, hav5) = add_group-Keeps s4 s5 e5 in
        let (havings, sel6) = add_having-HavingOf s5 s6 e6 in
        let sel = sel6 ∙ sel5 ∙ sel4 ∙ sel3 ∙ sel2 in
        let hav = hav5 ∙ hav4 ∙ hav3 ∙ hav2 ∙ having1 in
        let same : set_order_by (with_order exprs (order_by_of q)) (set_body (select s6) q) ≡ q' =
          cc in
        (
          s6,
          ap body_of (sym same) ∙ body_of-set q s6 (with_order exprs (order_by_of q)),
          (WhereOf-later s s1 s6 sel wheres, HavingOf-earlier s s5 s6 hav havings),
        )
