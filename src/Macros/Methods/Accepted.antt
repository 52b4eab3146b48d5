-- ===== src/Macros/Methods/Accepted.antt =====
-- What holds of a method that is accepted.
use sqlx_data.Prelude.{
  ◌≡◌, ◌≢◌, ◌≤◌, refl, sym, subst, ◌∙◌, Text, Bool, true, false, ◌&&◌, List, Option, none, some,
  Bool-cases, inl, inr, arith,
}
use sqlx_data.Error.{ok, err, split_ok}
use sqlx_data.Macros.SynResult.{SynResult}
use sqlx_data.Core.Tree.{Statement}
use sqlx_data.Macros.Syntax.{Ty}
use sqlx_data.Macros.Aliases.{AliasManager, has_aliases}
use sqlx_data.Macros.Aliases.Substitution.{substitute_aliases_settles}
use sqlx_data.Macros.Scopes.{ScopeManager}
use sqlx_data.Macros.Source.{resolve_content}
use sqlx_data.Macros.Named.{convert_named_to_positional_in_sql}
use sqlx_data.Macros.Parameters.{extract_parameters}
use sqlx_data.Macros.Parameters.Extracted.{
  AreSimple, parameters_of, count_pools, extract_parameters_iff,
}
use sqlx_data.Macros.Returns.{check_is_stream_type}
use sqlx_data.Macros.Methods.{
  SqlStatementType, ddl, detect_sql_type, is_crud_operation, return_type_contains_unit,
  validate_no_ddl_in_dml, validate_stream_not_async, validate_unit_type_not_allowed_in_crud,
  run_post_parsing_validations,
}
use sqlx_data.Macros.Methods.Arguments.{MacroArg, parse_macro_args}
use sqlx_data.Macros.Methods.Parse.{
  Method, DmlMethod, return_type_of, Outside, Start, apply_aliases_if_needed,
  apply_scopes_if_needed, made, finish_method, with_aliases, start, from_start,
  parse_dml_method_with_args,
}

no_ddl_lem : (kind : SqlStatementType) → validate_no_ddl_in_dml kind ≡ ok tt → kind ≢ ddl
no_ddl_lem kind h e = cc

module _ {X : Type 0} where
  unit_lem :
      (t : Ty X) (kind : SqlStatementType) (unchecked : Bool)
      → validate_unit_type_not_allowed_in_crud t kind unchecked ≡ ok tt
      → return_type_contains_unit t ≡ true
      → is_crud_operation kind ≡ true
      → unchecked ≡ true
  unfolding validate_unit_type_not_allowed_in_crud
  unit_lem t kind unchecked h u c = ground arith

  stream_lem :
      (t : Ty X) (is_async : Bool)
      → validate_stream_not_async t is_async ≡ ok tt
      → (check_is_stream_type t && is_async) ≡ false
  unfolding validate_stream_not_async
  stream_lem t is_async h = ground arith

module _ {X Y : Type 0} (o : Outside Y) (m : Method X) where
  -- What the pipeline promises of its method.
  pub record IsAccepted (d : DmlMethod X Y) : Type 0 where
    pub no_ddl : d.kind ≢ ddl
    pub unit_is_unchecked :
        return_type_contains_unit (return_type_of m) ≡ true
        → is_crud_operation d.kind ≡ true
        → d.is_unchecked ≡ true
    pub not_async : (check_is_stream_type (return_type_of m) && m.is_async) ≡ false
    pub parsed : o.parse_sql d.sql_content ≡ ok d.statement
    pub kind_of : d.kind ≡ detect_sql_type d.statement
    pub simple_names : AreSimple m.generics m.inputs
    pub its_parameters : d.parameters ≡ parameters_of m.generics m.inputs
    pub one_pool : count_pools m.generics d.parameters ≤ 1

  abbrev pub Accepts : SynResult (DmlMethod X Y) → Type 0
  Accepts (ok d) = IsAccepted d
  Accepts (err e) = Unit

  Started : Start X → Type 0
  Started s =
      AreSimple m.generics m.inputs
      × (s.params ≡ parameters_of m.generics m.inputs)
      × (count_pools m.generics (parameters_of m.generics m.inputs) ≤ 1)
      × ((check_is_stream_type (return_type_of m) && m.is_async) ≡ false)

  start-Started :
      (aliases : SynResult AliasManager) (scopes : SynResult ScopeManager) (no_tokens : Bool)
      (args : SynResult (List MacroArg)) (s : Start X)
      → start o m aliases scopes no_tokens args ≡ ok s
      → Started s
  unfolding Started
  start-Started aliases scopes no_tokens args s h =
      let (al, e1, h1) = split_ok aliases h in
      let (sc, e2, h2) = split_ok scopes h1 in
      let (params, e3, h3) = split_ok (extract_parameters m.inputs m.generics) h2 in
      let (sa, e4, h4) = split_ok (parse_macro_args no_tokens args) h3 in
      let (u, e5, h5) = split_ok (validate_stream_not_async (return_type_of m) m.is_async) h4 in
      let (content, e6, h6) = split_ok (resolve_content o.files (sa.0)) h5 in
      let (simple, same, few) = (extract_parameters_iff m.inputs m.generics params).0 e3 in
      let is_params : s.params ≡ params = cc in
      (simple, is_params ∙ same, few, stream_lem (return_type_of m) m.is_async e5)

  made-IsAccepted :
      (s : Start X) (content : Text) (st : Option (Statement Y))
      → Started s
      → o.parse_sql content ≡ ok st
      → validate_no_ddl_in_dml (detect_sql_type st) ≡ ok tt
      → validate_unit_type_not_allowed_in_crud
          (return_type_of m)
          (detect_sql_type st)
          s.args.has_unchecked
        ≡ ok tt
      → IsAccepted (made o m s.args content s.params st)
  unfolding Started
  made-IsAccepted s content st (simple, same, few, sync) e no_ddl unit = record {
    no_ddl = no_ddl_lem (detect_sql_type st) no_ddl;
    unit_is_unchecked = unit_lem (return_type_of m) (detect_sql_type st) s.args.has_unchecked unit;
    not_async = sync;
    parsed = e;
    kind_of = refl;
    simple_names = simple;
    its_parameters = same;
    one_pool = subst (λ params. count_pools m.generics params ≤ 1) (sym same) few;
  }

  finish-Accepts :
      (s : Start X) (sql : Text)
      → Started s
      → Accepts (finish_method o m s.scopes s.params s.args sql)
  finish-Accepts s sql started = go (finish_method o m s.scopes s.params s.args sql) refl
    where
      go :
          (r : SynResult (DmlMethod X Y))
          → finish_method o m s.scopes s.params s.args sql ≡ r
          → Accepts r
      go (err e) h = tt
      go (ok d) h =
          let (scoped, e1, h1) = split_ok (apply_scopes_if_needed o sql s.scopes) h in
          let (content, e2, h2) =
            split_ok
              (convert_named_to_positional_in_sql o.database o.order o.pieces_of scoped s.params)
              h1 in
          let (st, e3, h3) = split_ok (o.parse_sql content) h2 in
          let (u, e4, h4) =
            split_ok
              (run_post_parsing_validations (return_type_of m) (detect_sql_type st)
                s.args.has_unchecked)
              h3 in
          let (v, e5, e6) = split_ok (validate_no_ddl_in_dml (detect_sql_type st)) e4 in
          let same : made o m s.args content s.params st ≡ d = cc in
          subst IsAccepted same (made-IsAccepted s content st started e3 e5 e6)

  -- The aliases are substituted in a loop that ends.
  aliased :
      (sql : Text) (aliases : AliasManager)
      → (r : SynResult Text) × (apply_aliases_if_needed o sql aliases ≡ some r)
  aliased sql aliases = elim (Bool-cases (has_aliases aliases)) [
    | inl e ↦
        let (r, settled, x) = substitute_aliases_settles o.captures aliases sql in (r, rw e settled)
    | inr e ↦ (ok sql, rw e refl)
  ]

  with_aliases-Accepts :
      (s : Start X) (o' : Option (SynResult Text)) (r : SynResult Text)
      → Started s
      → o' ≡ some r
      → (x : SynResult (DmlMethod X Y)) × (with_aliases o
            (finish_method o m s.scopes s.params s.args)
            o'
          ≡ some x)
        × Accepts x
  with_aliases-Accepts s none r started e = cc
  with_aliases-Accepts s (some (err e')) r started e = (err e', refl, tt)
  with_aliases-Accepts s (some (ok sql)) r started e =
      (finish_method o m s.scopes s.params s.args sql, refl, finish-Accepts s sql started)

  from_start-Accepts :
      (r : SynResult (Start X))
      → ((s : Start X) → r ≡ ok s → Started s)
      → (x : SynResult (DmlMethod X Y)) × (from_start o m r ≡ some x) × Accepts x
  from_start-Accepts (err e) h = (err e, refl, tt)
  from_start-Accepts (ok s) h =
      let (r, e) = aliased s.content s.aliases in
      with_aliases-Accepts s (apply_aliases_if_needed o s.content s.aliases) r (h s refl) e

  -- For every method and all arguments, the parsing ends. It ends with an error, or with a method of
  -- which this holds: its statement is what its SQL was parsed to, gives its kind, and is no DDL; if the
  -- unit type is returned from a SELECT, INSERT, UPDATE or DELETE, the flag `unchecked` is set; a stream is
  -- not returned by an async function; its parameters are those of the arguments, in their order, all
  -- with simple names, and one of them at most is an executor.
  pub parse_dml_method_with_args-Accepts :
      (aliases : SynResult AliasManager) (scopes : SynResult ScopeManager) (no_tokens : Bool)
      (args : SynResult (List MacroArg))
      → (x : SynResult (DmlMethod X Y)) × (parse_dml_method_with_args o m aliases scopes no_tokens
            args
          ≡ some x)
        × Accepts x
  unfolding parse_dml_method_with_args
  parse_dml_method_with_args-Accepts aliases scopes no_tokens args =
      from_start-Accepts (start o m aliases scopes no_tokens args)
        (λ s e. start-Started aliases scopes no_tokens args s e)
