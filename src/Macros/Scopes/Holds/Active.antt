-- ===== src/Macros/Scopes/Holds/Active.antt =====
-- The scopes of a manager that are applied, and what `apply_scopes_to_sql` makes of them.
use sqlx_data.Prelude.{
  ◌≡◌, ◌↔◌, ◌⊎◌, inl, inr, refl, sym, ap, subst, ◌∙◌, Text, Bool, true, false, ◌&&◌, contains, List,
  [], ◌∷◌, Option, All, Bool-cases, arith, if◌then◌else◌,
}
use sqlx_data.Error.{ok, ◌>>=◌, split_ok}
use sqlx_data.Macros.SynResult.{SynResult}
use sqlx_data.Macros.Scopes.{
  ScopeTarget, where_target, having, ScopeDefinition, Scopes, ScopeManager, target_eq, not_ignored,
  with_target, get_active_scopes, has_active_scopes, get_scopes_by_target,
}
use sqlx_data.Macros.Scopes.Clauses.{
  and, parsed, as_query, as_select, select_of_body, where_condition, having_condition,
}
use sqlx_data.Macros.Scopes.Apply.{only_select, applied, apply_scopes_to_sql}
use sqlx_data.Macros.Scopes.Holds.{Passes, Meets, apply_to-IsScoped}
use sqlx_data.Core.Tree.{
  Expr, Query, SetExpr, select, Select, Statement, selection_of, having_of, body_of,
}

abbrev pub Among : Text → ScopeDefinition → Scopes → Type 0
Among n d [] = ⊥
Among n d ((n', d') ∷ scopes) = ((n ≡ n') × (d ≡ d')) ⊎ Among n d scopes

-- A scope of the manager that is not ignored and has the target.
abbrev pub IsActive : ScopeManager → ScopeTarget → Text → ScopeDefinition → Type 0
IsActive m t n d =
    Among n d m.scopes × (contains m.ignored_scopes n ≡ false) × (target_eq d.target t ≡ true)

not_ignored_iff :
    (ignored : List Text) (scopes : Scopes) (n : Text) (d : ScopeDefinition)
    → Among n d (not_ignored ignored scopes) ↔ (Among n d scopes × (contains ignored n ≡ false))
unfolding not_ignored
not_ignored_iff ignored [] n d = (λ h. absurd h, λ h. absurd (h.0))
not_ignored_iff ignored ((n', d') ∷ scopes) n d =
    let rest = not_ignored_iff ignored scopes n d in
    elim (Bool-cases (contains ignored n')) [
      | inl e ↦ rw e (
        λ h. let (a, c) = rest.0 h in (inr a, c),
        λ h. elim (h.0) [
          | inl (same, x) ↦ absurd (out n n' same e (h.1))
          | inr a ↦ rest.1 (a, h.1)
        ],
      )
      | inr e ↦ rw e (
        λ h. elim h [
          | inl (same, x) ↦ (inl (same, x), rw same e)
          | inr a ↦ let (b, c) = rest.0 a in (inr b, c)
        ],
        λ h. elim (h.0) [ inl s ↦ inl s | inr a ↦ inr (rest.1 (a, h.1)) ],
      )
    ]
  where
    out : (n n' : Text) → n ≡ n' → contains ignored n' ≡ true → contains ignored n ≡ false → ⊥
    out n n' s e h = cc

All-with_target :
    (P : ScopeDefinition → Type 0) (t : ScopeTarget) (scopes : Scopes)
    → All P (with_target t scopes)
      ↔ ((n : Text) (d : ScopeDefinition) → Among n d scopes → target_eq d.target t ≡ true → P d)
unfolding with_target
All-with_target P t [] = (λ a n d h. absurd h, λ h. tt)
All-with_target P t ((n', d') ∷ scopes) =
    let rest = All-with_target P t scopes in
    elim (Bool-cases (target_eq d'.target t)) [
      | inl e ↦ rw e (
        λ h n d a te. elim a [ inl (s, x) ↦ subst P (sym x) (h.0) | inr a ↦ rest.0 (h.1) n d a te ],
        λ f. (f n' d' (inl (refl, refl)) e, rest.1 (λ n d a te. f n d (inr a) te)),
      )
      | inr e ↦ rw e (
        λ h n d a te. elim a [
          | inl (s, x) ↦ absurd (other d d' x te e)
          | inr a ↦ rest.0 h n d a te
        ],
        λ f. rest.1 (λ n d a te. f n d (inr a) te),
      )
    ]
  where
    other :
        (d d' : ScopeDefinition)
        → d ≡ d'
        → target_eq d.target t ≡ true
        → target_eq d'.target t ≡ false
        → ⊥
    other d d' s e h = cc

taken :
    {A : Type 0} {a : A} {x : SynResult A} (y : SynResult A) (b : Bool)
    → b ≡ true
    → (if b then x else y) ≡ ok a
    → x ≡ ok a
taken y true e h = h
taken y false e h = ground arith

same_text : (t u : Text) → ◌≡◌ {A = SynResult Text} (ok t) (ok u) → u ≡ t
same_text t u h = cc

module _ {X : Type 0} where
  query_of_statement :
      (st : Statement X) (q : Query X) → as_query only_select st ≡ ok q → st ≡ Statement.query q
  query_of_statement (Statement.query q') q h = cc
  query_of_statement (Statement.insert x) q h = cc
  query_of_statement (Statement.update r x) q h = cc
  query_of_statement (Statement.delete r x) q h = cc
  query_of_statement (Statement.create_table x) q h = cc
  query_of_statement (Statement.create_index x) q h = cc
  query_of_statement (Statement.create_view x) q h = cc
  query_of_statement (Statement.create_virtual_table x) q h = cc
  query_of_statement (Statement.create_schema x) q h = cc
  query_of_statement (Statement.create_database x) q h = cc
  query_of_statement (Statement.drop_object x) q h = cc
  query_of_statement (Statement.alter_table x) q h = cc
  query_of_statement (Statement.alter_view x) q h = cc
  query_of_statement (Statement.alter_index x) q h = cc
  query_of_statement (Statement.truncate x) q h = cc
  query_of_statement (Statement.pragma x) q h = cc
  query_of_statement (Statement.other_statement x) q h = cc

  select_of_body-select :
      (body : SetExpr X) (s : Select X) → select_of_body only_select body ≡ ok s → body ≡ select s
  select_of_body-select (select s') s h = cc
  select_of_body-select (SetExpr.values rows x) s h = cc
  select_of_body-select (SetExpr.other_body x) s h = cc

  body_of-select :
      (q : Query X) (s : Select X) → as_select only_select q ≡ ok s → body_of q ≡ select s
  body_of-select q s h = select_of_body-select (body_of q) s h

module _ {X : Type 0} (eval : Expr X → Bool)
    (eval-and : (a b : Expr X) → eval (and a b) ≡ (eval a && eval b)) where
  abbrev pub AllMeet : ScopeManager → ScopeTarget → (ScopeDefinition → SynResult (Expr X)) → Type 0
  AllMeet m t condition =
      (n : Text) (d : ScopeDefinition) → IsActive m t n d → Meets eval eval-and condition d

  -- A row passes WHERE exactly if it passed it before and passes every active scope at WHERE; likewise
  -- a group and HAVING.
  abbrev pub IsApplied :
      (Text → SynResult (Option (Statement X))) → ScopeManager → Select X → Select X → Type 0
  IsApplied parse_sql m s s' =
      (Passes eval eval-and (selection_of s') ↔ (
        Passes eval eval-and (selection_of s) × AllMeet m where_target (where_condition parse_sql)))
      × (Passes eval eval-and (having_of s')
          ↔ (Passes eval eval-and (having_of s) × AllMeet m having (having_condition parse_sql)))

  module _ (order : Scopes → Scopes)
      (order-Among : (l : Scopes) (n : Text) (d : ScopeDefinition)
        → Among n d (order l) ↔ Among n d l) where
    AllMeet-get_scopes_by_target :
        (m : ScopeManager) (t : ScopeTarget) (condition : ScopeDefinition → SynResult (Expr X))
        → All (Meets eval eval-and condition) (get_scopes_by_target order m t)
          ↔ AllMeet m t condition
    AllMeet-get_scopes_by_target m t condition =
        let all = All-with_target (Meets eval eval-and condition) t (order (get_active_scopes m)) in
        (
          λ h n d a.
              all.0 h n d
                ((order-Among (get_active_scopes m) n d).1
                  ((not_ignored_iff m.ignored_scopes m.scopes n d).1 (a.0, a.1)))
                (a.2),
          λ f. all.1 (λ n d a te.
              let active =
                (not_ignored_iff m.ignored_scopes m.scopes n d).0
                  ((order-Among (get_active_scopes m) n d).0 a) in
              f n d (active.0, active.1, te)),
        )

    with_meets : {P Q A B : Type 0} → A ↔ B → P ↔ (Q × A) → P ↔ (Q × B)
    with_meets e h = (λ p. let (q, a) = h.0 p in (q, e.0 a), λ r. h.1 (r.0, e.1 (r.1)))

    -- For a reading of conditions in which AND is a conjunction, and a map of active scopes that holds
    -- them in any order: if the manager has an active scope and the scopes are applied without an error,
    -- then the text is that of a SELECT, made from the one that was parsed. A row passes its WHERE exactly
    -- if it passes the old WHERE and the condition of every scope at WHERE that is not ignored, and
    -- likewise for HAVING. This is said of the trees, before they are printed, and of these two clauses
    -- only: what scopes at other clauses add, and how the printed text groups, is not.
    pub apply_scopes_to_sql-IsApplied :
        (parse_sql : Text → SynResult (Option (Statement X))) (print : Query X → Text)
        (m : ScopeManager) (sql t : Text)
        → has_active_scopes m ≡ true
        → apply_scopes_to_sql parse_sql print order m sql ≡ ok t
        → (q : Query X) × (s : Select X) × (q' : Query X) × (s' : Select X) × (parsed parse_sql sql
            ≡ ok (Statement.query q))
          × (body_of q ≡ select s)
          × (t ≡ print q')
          × (body_of q' ≡ select s')
          × IsApplied parse_sql m s s'
    unfolding apply_scopes_to_sql
    apply_scopes_to_sql-IsApplied parse_sql print m sql t active h =
        let (q', made, shown) =
          split_ok (applied parse_sql print order m sql)
            (taken (ok sql) (has_active_scopes m) active h) in
        let (q, read, made') = split_ok (parsed parse_sql sql >>= as_query only_select) made in
        let (st, read', as_q) = split_ok (parsed parse_sql sql) read in
        let (s, as_s, made'') = split_ok (as_select only_select q) made' in
        let (s', body', (wheres, havings)) =
          apply_to-IsScoped eval eval-and parse_sql (get_scopes_by_target order m) q q' s made'' in
        (
          q,
          s,
          q',
          s',
          read' ∙ ap (λ x. ok x) (query_of_statement st q as_q),
          body_of-select q s as_s,
          same_text (print q') t shown,
          body',
          (
            with_meets (AllMeet-get_scopes_by_target m where_target (where_condition parse_sql))
                wheres,
            with_meets (AllMeet-get_scopes_by_target m having (having_condition parse_sql)) havings,
          ),
        )
