-- ===== src/Macros/Returns/Agreement.antt =====
-- The two analyses of a return type agree on pages, for methods that return a Result.
use sqlx_data.Prelude.{
  ℕ, suc, ◌≤◌, length, ◌≡◌, ◌↔◌, refl, sym, ap, ◌∙◌, ◌>>=?◌, Text, codes, contains, text_eq, true,
  List, [], ◌∷◌, Option, some, arith,
}
use sqlx_data.Error.{ok, err, split_ok}
use sqlx_data.Macros.SynResult.{SynResult}
use sqlx_data.Macros.Syntax.{
  Ty, path, Segments, angle_bracketed, GenericArguments, type_argument, assoc_type, other_argument,
  no_argument, last_segment, first_type,
}
use sqlx_data.Macros.Types.{
  ReturnType, result, struct, unknown, fetch_all, query_as, result_of, Extra, pagination_types,
  named, path_to_string,
}
use sqlx_data.Macros.Types.Analysis.{analyze_type, all_analyzed}
use sqlx_data.Macros.Types.Strategy.{determine_query_strategy, determine_fetch_method}
use sqlx_data.Macros.Types.Total.{analyze_type-Succeeds, all_analyzed-Succeeds}
use sqlx_data.Macros.Returns.Pages.{analyze_segments-last, WithoutPages, IsPage, IsPage-type}
use sqlx_data.Macros.Returns.Structs.{type-struct}
use sqlx_data.Macros.Returns.{
  analyze, check_is_pagination, extract_ok_type_name, extract_first_type_arg, arguments_of,
}

-- How many of the arguments are types.
abbrev pub count_types : {X : Type 0} → GenericArguments X → ℕ
count_types no_argument = 0
count_types (type_argument t rest) = suc (count_types rest)
count_types (assoc_type name t rest) = count_types rest
count_types (other_argument x rest) = count_types rest

length-all_analyzed :
    {X : Type 0} (extra : Extra) (args : GenericArguments X) (l : List ReturnType)
    → all_analyzed extra args ≡ ok l
    → length l ≡ count_types args
unfolding all_analyzed
length-all_analyzed extra no_argument l e = let same : l ≡ [] = cc in rw same refl
length-all_analyzed extra (assoc_type name t rest) l e = length-all_analyzed extra rest l e
length-all_analyzed extra (other_argument x rest) l e = length-all_analyzed extra rest l e
length-all_analyzed extra (type_argument t rest) l e =
    let (r, analyzed, e') = split_ok (analyze_type extra t) e in
    let (rs, later, e'') = split_ok (all_analyzed extra rest) e' in
    let same : l ≡ r ∷ rs = cc in rw same (ap suc (length-all_analyzed extra rest rs later))

-- The analysis for the query takes the return type for a Result of a page.
abbrev pub IsPageResult : SynResult ReturnType → Type 0
IsPageResult m =
    (name : Text) × (e : ReturnType) × (contains pagination_types name ≡ true)
    × (m ≡ ok (result (struct name) e))

-- The query is asked for all rows, which are mapped to a type.
abbrev pub FetchesRows : SynResult ReturnType → Type 0
FetchesRows (ok r) =
    (determine_fetch_method r ≡ fetch_all) × (determine_query_strategy r ≡ query_as)
FetchesRows (err e) = ⊥

struct-fetches :
    (name : Text) (e : ReturnType)
    → contains pagination_types name ≡ true
    → (determine_fetch_method (result (struct name) e) ≡ fetch_all)
      × (determine_query_strategy (result (struct name) e) ≡ query_as)
unfolding determine_fetch_method determine_query_strategy
struct-fetches name e h = (rw h refl, refl)

result_named :
    (extra : Extra) (shown : Text) (inner : Option ReturnType) (all : List ReturnType)
    → named extra (codes "Result") shown (ok inner) (ok all) ≡ ok (result_of shown all)
unfolding text_eq
result_named extra shown inner all = refl

short_result :
    (shown name : Text) (rs : List ReturnType)
    → length rs ≤ 1
    → (e : ReturnType) × (result_of shown (struct name ∷ rs) ≡ result (struct name) e)
short_result shown name [] h = (unknown (codes "sqlx_data::Error"), refl)
short_result shown name (e ∷ []) h = (e, refl)
short_result shown name (e ∷ e' ∷ rs) h = absurd (omega arith)

result_of-first :
    (shown : Text) (r t e : ReturnType) (rs : List ReturnType)
    → ◌≡◌ {A = SynResult ReturnType} (ok (result_of shown (r ∷ rs))) (ok (result t e))
    → r ≡ t
result_of-first shown r t e [] h = cc
result_of-first shown r t e (x ∷ []) h = cc
result_of-first shown r t e (x ∷ y ∷ rs) h = cc

page_name :
    (o : Option Text) (name : Text)
    → contains pagination_types name ≡ true
    → o ≡ some name
    → check_is_pagination o ≡ true
unfolding check_is_pagination
page_name o name page e = rw e page

module _ {X : Type 0} (extra : Extra) (plain : WithoutPages extra.plain) (segments : Segments X)
    (t : Ty X) (rest : GenericArguments X) where
  ok_type :
      last_segment segments ≡ some (codes "Result", angle_bracketed (type_argument t rest))
      → extract_first_type_arg (path segments) ≡ some t
  unfolding extract_first_type_arg
  ok_type e = ap (λ o. o >>=? arguments_of >>=? first_type) e

  analyzed_result :
      (r : ReturnType) (rs : List ReturnType)
      → last_segment segments ≡ some (codes "Result", angle_bracketed (type_argument t rest))
      → analyze_type extra t ≡ ok r
      → all_analyzed extra rest ≡ ok rs
      → analyze_type extra (path segments) ≡ ok (result_of (path_to_string segments) (r ∷ rs))
  unfolding analyze_type
  analyzed_result r rs e first later =
      analyze_segments-last extra segments segments (codes "Result")
        (angle_bracketed (type_argument t rest)) e
      ∙ rw (first, later) (result_named extra (path_to_string segments) (some r) (r ∷ rs))

  is_page :
      last_segment segments ≡ some (codes "Result", angle_bracketed (type_argument t rest))
      → count_types rest ≤ 1
      → IsPage extra t
      → IsPageResult (analyze_type extra (path segments))
  is_page e few (name, page, taken) =
      let (rs, later) = all_analyzed-Succeeds extra rest in
      let (e', short) =
        short_result (path_to_string segments) name rs
          (omega (arith, few, length-all_analyzed extra rest rs later)) in
      (name, e', page, analyzed_result (struct name) rs e taken later ∙ ap (λ r. ok r) short)

  -- What is taken for a Result of a struct has its argument taken for it.
  argument-struct :
      (name : Text) (e' : ReturnType)
      → last_segment segments ≡ some (codes "Result", angle_bracketed (type_argument t rest))
      → analyze_type extra (path segments) ≡ ok (result (struct name) e')
      → analyze_type extra t ≡ ok (struct name)
  argument-struct name e' e h =
      let (r, first) = analyze_type-Succeeds extra t in
      let (rs, later) = all_analyzed-Succeeds extra rest in
      let made : ◌≡◌ {A = SynResult ReturnType} (ok (result_of (path_to_string segments) (r ∷ rs)))
          (ok (result (struct name) e')) =
        sym (analyzed_result r rs e first later) ∙ h in
      first ∙ ap (λ x. ok x) (result_of-first (path_to_string segments) r (struct name) e' rs made)

  fetches_rows : (m : SynResult ReturnType) → IsPageResult m → FetchesRows m
  fetches_rows m (name, e, page, same) = rw same (struct-fetches name e page)

  -- If none of the added scalar types has the name of a page, then for a method that returns
  -- `Result<T>` or `Result<T, E>`, however the path to Result is written: the cached analysis takes T
  -- for a page (a path that ends in Serial, Slice or Cursor) exactly if the analysis for the query takes
  -- the return type for a Result of one, fetches all rows and maps them by `query_as`. Nothing is said
  -- of other return types.
  pub is_pagination_iff :
      last_segment segments ≡ some (codes "Result", angle_bracketed (type_argument t rest))
      → count_types rest ≤ 1
      → (let m = analyze_type extra (path segments) in
          ((analyze (some (path segments))).is_pagination ≡ true)
          ↔ (IsPageResult m × FetchesRows m))
  unfolding analyze
  is_pagination_iff e few =
      let name_of = ap (λ o. check_is_pagination (extract_ok_type_name o)) (ok_type e) in
      (
        λ h.
            let p = is_page e few (IsPage-type extra t plain (sym name_of ∙ h)) in
            (p, fetches_rows (analyze_type extra (path segments)) p),
        λ ((name, e', page, same), rows).
            name_of
            ∙ page_name (extract_ok_type_name (some t)) name page
                (type-struct extra name t (argument-struct name e' e same)),
      )
