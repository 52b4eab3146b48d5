-- ===== src/Dynamic/Grouping/Selection.antt =====
-- The condition of a SELECT after the conditions of the parameters are added.
use sqlx_data.Prelude.{
  ◌≡◌, ◌↔◌, inl, inr, [], ◌∷◌, Option, none, some, All, Bool-cases, if◌then◌else◌,
}
use mathlib.Core.Path.{subst}
use sqlx_data.Error.{ok}
use sqlx_data.Params.{Params}
use sqlx_data.Ast.{Expr}
use sqlx_data.Dynamic.Binder.{Config, Binder}
use sqlx_data.Dynamic.Exprs
use sqlx_data.Dynamic.Exprs.{contains_or, grouped_and}
use sqlx_data.Dynamic.Filters.{where_filters}
use sqlx_data.Dynamic.Searches.{where_search}
use sqlx_data.Dynamic.Cursors.{where_cursor}
use sqlx_data.Dynamic.Select.{keep_some, dynamic_where, add_selection, process_select}
use sqlx_data.Dynamic.Grouping.{
  Atom, NotOr, Reads, ReadsOpt, Always, Holds, Always->>=, NotOr-of_contains_or, reduce_and-Reads,
  reduce_grouped-Reads,
}
use sqlx_data.Dynamic.Grouping.Parts.{where_filters-Atom, where_search-Reads, where_cursor-Reads}

module _ {X : Type 0} where
  keep_some-Reads :
      (filters search cursor : Option (Expr X))
      → ReadsOpt filters
      → ReadsOpt search
      → ReadsOpt cursor
      → All Reads (keep_some (filters ∷ search ∷ cursor ∷ []))
  keep_some-Reads none none none f s c = tt
  keep_some-Reads none none (some _) f s c = (c, tt)
  keep_some-Reads none (some _) none f s c = (s, tt)
  keep_some-Reads none (some _) (some _) f s c = (s, (c, tt))
  keep_some-Reads (some _) none none f s c = (f, tt)
  keep_some-Reads (some _) none (some _) f s c = (f, (c, tt))
  keep_some-Reads (some _) (some _) none f s c = (f, (s, tt))
  keep_some-Reads (some _) (some _) (some _) f s c = (f, (s, (c, tt)))

  -- The old condition of the query, if there is one, reads back as it is and is no bare OR.
  abbrev pub SelectionReads : Option (Expr X) → Type 0
  SelectionReads none = Unit
  SelectionReads (some e) = NotOr e × Reads e

  wrapped-Reads :
      (c : Expr X)
      → Reads c
      → NotOr (if contains_or c then Expr.nested c else c)
        × Reads (if contains_or c then Expr.nested c else c)
  wrapped-Reads c r = elim (Bool-cases (contains_or c)) [
    | inl h ↦ rw h (tt, r)
    | inr h ↦ rw h (NotOr-of_contains_or c h, r)
  ]

  -- A condition that is joined to an old one reads back as it is exactly if the old one is no bare
  -- OR: then the text groups as the tree does, and otherwise the new condition joins only the
  -- last part of the OR. Both conditions read back as they are.
  pub add_selection_iff :
      (existing combined : Expr X)
      → Reads existing
      → Reads combined
      → ReadsOpt (add_selection (some existing) (some combined)) ↔ NotOr existing
  unfolding add_selection
  add_selection_iff existing combined r r' =
      ((λ h. h.0.0), (λ n. let (n', w) = wrapped-Reads combined r' in ((n, n'), (r, w))))

  add_selection-Reads :
      (selection combined : Option (Expr X))
      → SelectionReads selection
      → ReadsOpt combined
      → ReadsOpt (add_selection selection combined)
  unfolding add_selection
  add_selection-Reads none none h r = tt
  add_selection-Reads (some e) none (n, h) r = h
  add_selection-Reads none (some c) h r = r
  add_selection-Reads (some e) (some c) (n, h) r = (add_selection_iff e c h r).1 n

  dynamic_where-Reads :
      (filters search cursor : Option (Expr X))
      → ReadsOpt filters
      → ReadsOpt search
      → ReadsOpt cursor
      → ReadsOpt (dynamic_where filters search cursor)
  unfolding dynamic_where
  dynamic_where-Reads filters search cursor f s c =
      reduce_grouped-Reads (keep_some (filters ∷ search ∷ cursor ∷ []))
        (keep_some-Reads filters search cursor f s c)

Always-select :
    (X : Type 0) (cfg : Config) (params : Params) (selection : Option (Expr X))
    → SelectionReads selection
    → Always ReadsOpt (process_select cfg params selection)
unfolding process_select
Always-select X cfg params selection h =
    Always->>= (All Atom) ReadsOpt (where_filters cfg params.filters) _
      (where_filters-Atom X cfg params.filters)
      (λ fs f.
        Always->>= ReadsOpt ReadsOpt (where_search cfg params.search) _
          (where_search-Reads X cfg params.search)
          (λ s hs.
            Always->>= ReadsOpt ReadsOpt
              (where_cursor cfg.database params.pagination params.sort_by) _
              (where_cursor-Reads X cfg.database params.pagination params.sort_by)
              (λ c hc b. add_selection-Reads selection _ h (
                dynamic_where-Reads (Exprs.reduce Exprs.and fs) s c (reduce_and-Reads fs f) hs
                  hc))))

-- Whatever the filters, the search and the cursor are: if the old condition of the SELECT reads back
-- as it is and is no bare OR, then so does the condition that is built: the text that is printed
-- groups as the tree does.
pub process_select-Reads :
    (X : Type 0) (cfg : Config) (params : Params) (selection o : Option (Expr X)) (b b' : Binder)
    → SelectionReads selection
    → process_select cfg params selection b ≡ ok (o, b')
    → ReadsOpt o
process_select-Reads X cfg params selection o b b' h e =
    let held = Always-select X cfg params selection h b in subst (λ r. Holds ReadsOpt r) e held
