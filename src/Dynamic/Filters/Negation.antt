-- ===== src/Dynamic/Filters/Negation.antt =====
-- Which filters emit a negated condition.
use mathlib.Core.Path.{subst}
use sqlx_data.Prelude.{◌≡◌, refl, ap, ◌++◌, Text, Bool, false, Option, none, some, List, [], ◌∷◌}
use sqlx_data.Error.{ok}
use sqlx_data.Value.{FilterValue, Elements, to_list, of_list, from_value}
use sqlx_data.Filter
use sqlx_data.Filter.{Filter, FilterOperator}
use sqlx_data.Ast.{Expr}
use sqlx_data.Builder.Filters.{FilterBuilder, in_values, not_in, push}
use sqlx_data.Dynamic.Binder.{Database, Config, Binder, pure, ◌>>=◌, bind_all}
use sqlx_data.Dynamic.Filters.{
  filter_expr, filter_exprs, ilike_expr, between_expr, in_list_expr, contains_expr, in_text,
  not_in_text,
}
use sqlx_data.Dynamic.Grouping.{Always, Holds, Always->>=, Always-any}

-- The `negated` of the condition, if it has one.
abbrev pub negated_of : {X : Type 0} → Expr X → Option Bool
negated_of (Expr.like n e p escape) = some n
negated_of (Expr.ilike n e p escape) = some n
negated_of (Expr.in_list e es n) = some n
negated_of (Expr.between e n low high) = some n
negated_of _ = none

-- What the filter asks for; a database without ILIKE gets a LIKE that is never negated.
abbrev ilike_negation : Database → Bool → Bool
ilike_negation Database.postgres n = n
ilike_negation _ n = false

abbrev pub negation : Database → FilterOperator → Bool → Option Bool
negation db FilterOperator.like n = some n
negation db FilterOperator.unsafe_like n = some n
negation db FilterOperator.ilike n = some (ilike_negation db n)
negation db FilterOperator.in_list n = some n
negation db FilterOperator.not_in n = some n
negation db FilterOperator.between n = some n
negation db FilterOperator.contains n = some n
negation db _ n = none

abbrev Negated : {X : Type 0} → Option Bool → Expr X → Type 0
Negated o e = negated_of e ≡ o

module _ (X : Type 0) (cfg : Config) (f : Filter) where
  ilike-Negated :
      (d : Database)
      → Always (Negated {X = X} (some (ilike_negation d f.negated))) (ilike_expr cfg d f)
  unfolding filter_expr
  ilike-Negated Database.sqlite b = refl
  ilike-Negated Database.postgres b = refl
  ilike-Negated Database.mysql b = refl

  between-Negated :
      (v : FilterValue) → Always (Negated {X = X} (some f.negated)) (between_expr cfg f v)
  unfolding filter_expr
  between-Negated (FilterValue.array (Elements.cons l (Elements.cons h Elements.nil))) b = refl
  between-Negated (FilterValue.array Elements.nil) b = tt
  between-Negated (FilterValue.array (Elements.cons l Elements.nil)) b = tt
  between-Negated (FilterValue.array (Elements.cons l (Elements.cons h (Elements.cons v vs)))) b =
      tt
  between-Negated _ b = tt

  in_list-Negated :
      (operator : Text) (v : FilterValue)
      → Always (Negated {X = X} (some f.negated)) (in_list_expr cfg operator f v)
  unfolding filter_expr
  in_list-Negated operator (FilterValue.array Elements.nil) b = tt
  in_list-Negated operator (FilterValue.array (Elements.cons v vs)) b =
      Always->>= (λ es. Unit) (Negated (some f.negated)) (bind_all cfg.database (v ∷ to_list vs)) _
        (Always-any (bind_all cfg.database (v ∷ to_list vs))) (λ es u b'. refl) b
  in_list-Negated operator _ b = tt

  contains-Negated :
      (v : FilterValue) → Always (Negated {X = X} (some f.negated)) (contains_expr cfg f v)
  unfolding filter_expr
  contains-Negated (FilterValue.string s) b = refl
  contains-Negated _ b = tt

  filter-Negated :
      (op : FilterOperator)
      → Always (Negated {X = X} (negation cfg.database op f.negated)) (filter_expr cfg op f)
  unfolding filter_expr
  filter-Negated FilterOperator.ilike = ilike-Negated cfg.database
  filter-Negated FilterOperator.between = between-Negated f.value
  filter-Negated FilterOperator.in_list = in_list-Negated in_text f.value
  filter-Negated FilterOperator.not_in = in_list-Negated not_in_text f.value
  filter-Negated FilterOperator.contains = contains-Negated f.value
  filter-Negated _ = λ b. refl

-- A condition that is built for a filter is negated exactly by the filter's flag if the operator is
-- one of the two LIKEs, IN, NOT IN, BETWEEN or contains, so NOT IN without the flag gives an IN.
-- ILIKE follows the flag on PostgreSQL only, and is never negated elsewhere. The other operators give a
-- condition without negation.
pub filter_expr-negation :
    (X : Type 0) (cfg : Config) (op : FilterOperator) (f : Filter) (b b' : Binder) (e : Expr X)
    → filter_expr cfg op f b ≡ ok (e, b')
    → negated_of e ≡ negation cfg.database op f.negated
filter_expr-negation X cfg op f b b' e h =
    subst (λ r. Holds (Negated (negation cfg.database op f.negated)) r) h
      (filter-Negated X cfg f op b)

same_last :
    (X : Type 0) (cfg : Config) (fs : List Filter) (f g : Filter)
    → filter_expr {X = X} cfg f.operator f ≡ filter_expr cfg g.operator g
    → filter_exprs {X = X} cfg (fs ++ f ∷ []) ≡ filter_exprs cfg (fs ++ g ∷ [])
unfolding filter_exprs
same_last X cfg [] f g h = ap (λ m. m >>= λ e. pure [] >>= λ es. pure (e ∷ es)) h
same_last X cfg (f' ∷ fs) f g h =
    ap (λ m. filter_expr cfg f'.operator f' >>= λ e. m >>= λ es. pure (e ∷ es))
      (same_last X cfg fs f g h)

same_condition :
    (X : Type 0) (cfg : Config) (field : Text) (v : FilterValue) (vs : List FilterValue)
    → filter_expr {X = X} cfg FilterOperator.not_in
        (Filter.new field FilterOperator.not_in (FilterValue.array (of_list (v ∷ vs))))
      ≡ filter_expr cfg FilterOperator.in_list
          (Filter.new field FilterOperator.in_list (FilterValue.array (of_list (v ∷ vs))))
unfolding filter_expr
same_condition X cfg field v vs = refl

-- The builder's NOT IN over at least one value, on any filters before it, builds the same conditions
-- and binds the same values as its IN.
pub filter_exprs-not_in :
    (X : Type 0) (cfg : Config) (P : Type 0) (fb : FilterBuilder P) (field : Text) (v : FilterValue)
    (vs : List FilterValue) (b : Binder)
    → filter_exprs {X = X} cfg (not_in field (v ∷ vs) fb).filters.filters b
      ≡ filter_exprs cfg (in_values field (v ∷ vs) fb).filters.filters b
unfolding not_in in_values push
filter_exprs-not_in X cfg P fb field v vs b = λ i.
    same_last X cfg fb.filters.filters
      (Filter.new field FilterOperator.not_in (FilterValue.array (of_list (v ∷ vs))))
      (Filter.new field FilterOperator.in_list (FilterValue.array (of_list (v ∷ vs))))
      (same_condition X cfg field v vs) i b
