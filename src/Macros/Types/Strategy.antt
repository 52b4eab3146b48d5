-- ===== src/Macros/Types/Strategy.antt =====
-- `TypeAnalyzer`: how a query is to be run, from what its return type was taken for.
use sqlx_data.Prelude.{codes, text_eq, contains, Bool, false, if◌then◌else◌}
use sqlx_data.Prelude.Texts.Methods.{ends_with}
use sqlx_data.Macros.Types.{
  ReturnType, scalar, struct, unknown, tuple_of, vec, option, stream, result, unit, QueryType,
  query_as, query_scalar, query, FetchMethod, execute, fetch_one, fetch_all, fetch_optional, fetch,
  pagination_types,
}

abbrev is_byte : ReturnType → Bool
is_byte (scalar name) = text_eq name (codes "u8")
is_byte _ = false

-- A list of bytes is one value and not a list of rows.
abbrev pub is_bytes : ReturnType → Bool
is_bytes (vec t) = is_byte t
is_bytes _ = false

unfoldable pub determine_query_strategy : ReturnType → QueryType
determine_query_strategy (result t e) = determine_query_strategy t
determine_query_strategy unit = query
determine_query_strategy (scalar name) = query_scalar
determine_query_strategy (struct name) = query_as
determine_query_strategy (tuple_of ts) = query_as
determine_query_strategy (vec t) =
    let inner = determine_query_strategy t in if is_byte t then query_scalar else inner
determine_query_strategy (option t) =
    let inner = determine_query_strategy t in if is_bytes t then query_scalar else inner
determine_query_strategy (stream t) = determine_query_strategy t
determine_query_strategy (unknown name) = query

unfoldable pub determine_fetch_method : ReturnType → FetchMethod
determine_fetch_method (result t e) = determine_fetch_method t
determine_fetch_method unit = execute
determine_fetch_method (struct name) =
    if contains pagination_types name
    then fetch_all
    else if ends_with name (codes "QueryResult")
    then execute
    else fetch_one
determine_fetch_method (vec t) = fetch_all
determine_fetch_method (option t) = fetch_optional
determine_fetch_method (stream t) = fetch
determine_fetch_method (scalar name) = fetch_one
determine_fetch_method (tuple_of ts) = fetch_one
determine_fetch_method (unknown name) = fetch_one
