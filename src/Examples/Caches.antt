-- ===== src/Examples/Caches.antt =====
-- A store with room for one entry, and texts that are parsed through it.
use sqlx_data.Prelude.{
  ℕ, ◌+◌, ◌%◌, ◌^◌, ◌==◌, ◌≡◌, refl, sym, inl, inr, true, false, Text, codes, text_eq, text_eq_iff,
  List, [], ◌∷◌, Option, none, some, if◌then◌else◌, arith, Bool-cases, ==_iff,
}
use sqlx_data.Ast.{Statement}
use sqlx_data.Cache.{Store, GlobalCache}
use sqlx_data.Cache.Counts.{hits_of, misses_of, Call, Step, run, calls, run-counts}
use sqlx_data.Core.Tree
use sqlx_data.Core.Tree.{query_of, values}
use sqlx_data.Core.Count.{Printer}
use sqlx_data.Core.Count.Cached.{Caches, build_count_query_from_sql}
use sqlx_data.Core.Count.Cached.Fresh.{AreFaithful, fresh_count, build_count_query_from_sql-fresh}
use sqlx_data.Parser.{Parsing, parse}
use sqlx_data.Parser.Cached.{fresh, Faithful, MakesNoneUp, parse-fresh}

abbrev look : {V : Type 0} → ℕ → Option (ℕ × V) → Option V
look key none = none
look key (some (k, v)) = if k == key then some v else none

abbrev one_entry : {V : Type 0} → Store V
one_entry {V} = record {
  S = Option (ℕ × V);
  get = look;
  insert = λ key value s. some (key, value);
  invalidate = λ key s. none;
  invalidate_all = λ s. none;
}

one_entry-MakesNoneUp : {V : Type 0} → MakesNoneUp (one_entry {V = V})
one_entry-MakesNoneUp key other value found s h = elim (Bool-cases (key == other)) [
  | inl same ↦ inl (sym ((==_iff key other).0 same), sym (some_value (rw same at h)))
  | inr differ ↦ absurd (none_value (rw differ at h))
]
  where
    some_value : some value ≡ some found → value ≡ found
    some_value e = cc e

    none_value : none ≡ some found → ⊥
    none_value e = cc e

abbrev select : Text
select = codes "SELECT 1"

abbrev parsing : Parsing (Statement Text)
parsing = record {
  statements = λ t. some (Statement.other t ∷ []);
  fingerprint = λ t. if text_eq t select then 7 else 8;
}

abbrev empty : GlobalCache (one_entry {V = Statement Text})
empty = record { cache = none; stats = [] }

empty-Faithful : Faithful parsing empty
empty-Faithful key st h = cc

select-alone : (t : Text) → parsing.fingerprint t ≡ parsing.fingerprint select → t ≡ select
select-alone t h = elim (Bool-cases (text_eq t select)) [
  | inl same ↦ (text_eq_iff t select).0 same
  | inr differ ↦
      let itself = (text_eq_iff select select).1 refl in
      let h' : 8 ≡ 7 = rw (differ, itself) at h in absurd (omega (arith, h'))
]

parsed_once :
    ((parse parsing one_entry select 100 empty).0 ≡ fresh parsing select)
    × Faithful parsing ((parse parsing one_entry select 100 empty).1)
parsed_once =
    parse-fresh parsing one_entry one_entry-MakesNoneUp select 100 empty select-alone empty-Faithful

abbrev called :
    (ℕ → Statement Text) → Option (ℕ × Statement Text) → Step (one_entry {V = Statement Text})
called f store = record { call = Call.get_or_insert_with f; key = 7; now = 100; store = store }

abbrev kept : Statement Text
kept = Statement.other select

-- The key is missing, then found, then another entry has taken its place.
abbrev three_calls : List (Step (one_entry {V = Statement Text}))
three_calls =
    called (λ key. kept) none
    ∷ called (λ key. kept) (some (7, kept))
    ∷ called (λ key. kept) (some (8, kept))
    ∷ []

run-counts_example :
    (hits_of 7 (run one_entry three_calls empty).stats
      ≡ (calls one_entry true 7 three_calls + hits_of 7 empty.stats) % 2 ^ 64)
    × (misses_of 7 (run one_entry three_calls empty).stats
        ≡ (calls one_entry false 7 three_calls + misses_of 7 empty.stats) % 2 ^ 64)
run-counts_example = run-counts one_entry three_calls 7 empty (omega arith) (omega arith)

counted_calls :
    (calls (one_entry {V = Statement Text}) true 7 three_calls ≡ 1)
    × (calls (one_entry {V = Statement Text}) false 7 three_calls ≡ 2)
counted_calls = (refl, refl)

-- The statements of sqlparser, for counting.
abbrev rows : Tree.Statement ℕ
rows = Tree.Statement.query (query_of none (values [] 0) none none none 0)

abbrev tree_parsing : Parsing (Tree.Statement ℕ)
tree_parsing = record {
  statements = λ t. some (rows ∷ []);
  fingerprint = λ t. if text_eq t select then 7 else 8;
}

abbrev printer : Printer ℕ
printer = record {
  statement_text = λ st. codes "SELECT 1";
  query_text = λ q. codes "SELECT 1";
  with_text = λ cte. [];
}

abbrev empty_caches : Caches tree_parsing one_entry one_entry printer
empty_caches = record {
  asts = record { cache = none; stats = [] };
  counts = record { cache = none; stats = [] };
}

empty_caches-AreFaithful : AreFaithful tree_parsing printer empty_caches
empty_caches-AreFaithful = ((λ key st h. cc), λ key t h. cc)

build_count_query_from_sql-fresh_example :
    ((build_count_query_from_sql tree_parsing one_entry one_entry printer select 100 empty_caches).0
      ≡ fresh_count tree_parsing printer select)
    × AreFaithful tree_parsing printer (
        (build_count_query_from_sql tree_parsing one_entry one_entry printer select 100
          empty_caches).1)
build_count_query_from_sql-fresh_example =
    build_count_query_from_sql-fresh tree_parsing one_entry one_entry printer one_entry-MakesNoneUp
      one_entry-MakesNoneUp select 100 select-alone empty_caches empty_caches-AreFaithful
