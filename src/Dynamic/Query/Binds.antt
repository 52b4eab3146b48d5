-- ===== src/Dynamic/Query/Binds.antt =====
-- `process_query` on a plain SELECT: where the placeholders that it adds lead.
use sqlx_data.Prelude.{
  ℕ, ◌+◌, ◌<◌, ◌≤◌, ◌≡◌, refl, ◌∙◌, ap, ◌≢◌, ◌⊎◌, inl, inr, List, [], ◌++◌, map, length, append-nil,
  Option, some, arith, Text,
}
use sqlx_data.Error.{ok}
use sqlx_data.Value.{FilterValue}
use sqlx_data.Params.{Params}
use sqlx_data.Ast.{Expr, SetExpr, Query}
use sqlx_data.Dynamic.Binder.{Database, Config, Binder, >>=_ok, make_generator}
use sqlx_data.Dynamic.Binder.Numbering.{resolve, resolve-texts, InStep, texts, binds-bound_all}
use sqlx_data.Dynamic.Holes.{holes_opt}
use sqlx_data.Dynamic.Select.{process_select, process_set_expr}
use sqlx_data.Dynamic.Select.Binds.{
  Cursorless, where_values, BuildsWhere, process_select-BuildsWhere,
}
use sqlx_data.Dynamic.Query.{start_index, finish, process_query}

-- `count` numbered placeholders, the largest is `most`: none of both, or each has its value.
abbrev pub Counted : (count most : ℕ) → List FilterValue → Type 0
Counted count most binds = ((most ≡ 0) × (count ≡ 0)) ⊎ ((0 < most) × (count ≡ length binds))

start-InStep :
    (count most : ℕ) (binds : List FilterValue)
    → Counted count most binds
    → length binds < 255
    → most < 255
    → InStep count most (make_generator (start_index binds most) binds)
unfolding make_generator start_index
start-InStep count most binds (inl (e, e')) small small' = record {
  after_text = omega (arith, e');
  step = ground (arith, e, e');
}
start-InStep count most binds (inr (h, e')) small small' = record {
  after_text = omega (arith, e');
  step = ground (arith, e');
}

module _ {X : Type 0} (cfg : Config) (params : Params) where
  process_set_expr-select :
      (body : SetExpr X) (selection : Option (Expr X)) (rest : X) (o : Option (Expr X))
      (b b' : Binder)
      → body ≡ SetExpr.select selection rest
      → process_select cfg params selection b ≡ ok (o, b')
      → process_set_expr cfg params body b ≡ ok (SetExpr.select o rest, b')
  unfolding process_set_expr
  process_set_expr-select body selection rest o b b' e h =
      ap (λ s. process_set_expr cfg params s b) e
      ∙ >>=_ok (process_select cfg params selection) _ b h

  process_query_ok :
      (q : Query X) (binds : List FilterValue) (most : ℕ) (body : SetExpr X) (b : Binder)
      → process_set_expr cfg params q.body (make_generator (start_index binds most) binds)
        ≡ ok (body, b)
      → process_query cfg params q binds most
        ≡ ok (finish cfg params (record q { body = body }), b.binds)
  unfolding process_query
  process_query_ok q binds most body b h = rw (h, process_query)

-- The query that is built from a plain SELECT, with its condition `o` and its values `binds'`.
abbrev pub BuildsQuery :
    {X : Type 0}
    → Config
    → Params
    → Query X
    → List FilterValue
    → (most : ℕ) → Option (Expr X)
    → X
    → List FilterValue
    → Type 0
BuildsQuery cfg params q binds most o rest binds' =
    process_query cfg params q binds most
    ≡ ok (finish cfg params (record q { body = SetExpr.select o rest }), binds')

binds-make_generator :
    (start : ℕ) (binds : List FilterValue) → (make_generator start binds).binds ≡ binds
unfolding make_generator
binds-make_generator start binds = refl

next_small :
    (count most n : ℕ) (binds : List FilterValue)
    → Counted count most binds
    → (b : Binder) → b.binds ≡ binds
    → InStep count most b
    → length binds + n < 255
    → most + n < 255
    → b.next + n ≤ 256
next_small count most n binds (inl (e, e')) b same step small small' =
    let same' = ap length same in omega (arith, e, e', step.step, same')
next_small count most n binds (inr (h, e')) b same step small small' =
    let same' = ap length same in omega (arith, e', step.step, same')

-- A query whose body is a plain SELECT, for a database with numbered placeholders and without
-- cursor pagination. Its text has `count` numbered placeholders up to `most` that have their values
-- in `binds`, the parameters bind the values `vs`, and the numbers stay below 256. Then building
-- succeeds, `vs` are bound behind `binds`, and the placeholders of the new condition are the old
-- ones and then new ones that stand for the values `vs`, in order.
pub process_query_resolves :
    (X : Type 0) (cfg : Config) (params : Params) (q : Query X) (selection : Option (Expr X))
    (rest : X) (count most : ℕ) (binds vs : List FilterValue)
    → cfg.database ≢ Database.mysql
    → Cursorless params.pagination
    → q.body ≡ SetExpr.select selection rest
    → Counted count most binds
    → length binds + length vs < 255
    → most + length vs < 255
    → where_values cfg params ≡ some vs
    → (o : Option (Expr X)) × (new : List Text) × BuildsQuery cfg params q binds most o rest
        (binds ++ vs)
      × (holes_opt o ≡ holes_opt selection ++ new)
      × (map (resolve count most (binds ++ vs)) new ≡ map some vs)
process_query_resolves X cfg params q selection rest count most binds vs ne h e counted small small'
      k =
    from_built (rw k at (process_select-BuildsWhere X cfg params selection b h))
  where
    b : Binder
    b = make_generator (start_index binds most) binds

    same : b.binds ≡ binds
    same = binds-make_generator (start_index binds most) binds

    step : InStep count most b
    step = start-InStep count most binds counted (omega arith) (omega arith)

    resolved : map (resolve count most (binds ++ vs)) (texts cfg.database b.next vs) ≡ map some vs
    resolved =
        rw (same, append-nil vs) at
          (resolve-texts cfg.database count most [] ne vs b step
            (next_small count most (length vs) binds counted b same step small small'))

    from_built :
        BuildsWhere cfg.database b selection (process_select cfg params selection) (some vs)
        → (o : Option (Expr X)) × (new : List Text) × BuildsQuery cfg params q binds most o rest
            (binds ++ vs)
          × (holes_opt o ≡ holes_opt selection ++ new)
          × (map (resolve count most (binds ++ vs)) new ≡ map some vs)
    from_built (o, f, at) = (
      o,
      texts cfg.database b.next vs,
      process_query_ok cfg params q binds most (SetExpr.select o rest) _
            (process_set_expr-select cfg params q.body selection rest o b _ e f)
          ∙ rw (binds-bound_all cfg.database vs b, same),
      at,
      resolved,
    )
