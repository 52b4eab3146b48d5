-- ===== src/Dynamic/Binder/Numbering.antt =====
-- What a numbered placeholder stands for, and that `bind` keeps the numbers in step with the values.
use sqlx_data.Prelude.{
  ℕ, zero, suc, ◌+◌, ◌-◌, ◌<◌, ◌≤◌, ◌≡◌, refl, sym, ◌∙◌, Text, List, [], ◌∷◌, ◌++◌, Option, none,
  some, append_assoc, append-nil, length, length-append, map, get_elem?, ◌>>=?◌, ltb, ◌==◌,
  if◌then◌else◌, arith, ◌≢◌, max_u64, ap, parse_usize, parse_usize-to_string, to_string,
}
use sqlx_data.Value.{FilterValue}
use sqlx_data.Dynamic.Binder.{Database, Binder, placeholder_text, advance}

-- `count` values stand in front for the placeholders up to `most` of the text of the query. The
-- placeholders after those stand for the values after these.
abbrev pub resolve : (count most : ℕ) → List FilterValue → Text → Option FilterValue
resolve count most binds [] = none
resolve count most binds (c ∷ s) =
    if c == b'$'
    then (parse_usize s >>=? λ k.
        if ltb most k then get_elem? binds (count + (k - most - 1)) else none)
    else none

pub record InStep (count most : ℕ) (b : Binder) : Type 0 where
  pub after_text : count ≤ length b.binds
  pub step : b.next + count ≡ length b.binds + most + 1

resolve_number :
    (count most k : ℕ) (binds : List FilterValue)
    → most < k
    → k ≤ max_u64
    → resolve count most binds (b'$' ∷ to_string k) ≡ get_elem? binds (count + (k - most - 1))
resolve_number count most k binds h fits = rw (parse_usize-to_string k fits) (ground arith)

pub get_elem?_here :
    {A : Type 0} (xs ys : List A) (v : A) (i : ℕ)
    → i ≡ length xs
    → get_elem? (xs ++ v ∷ ys) i ≡ some v
get_elem?_here [] ys v i e = rw e
get_elem?_here (x ∷ xs) ys v zero e = absurd (omega arith)
get_elem?_here (x ∷ xs) ys v (suc i) e = get_elem?_here xs ys v i (omega arith)

-- The placeholder that comes next will stand for the value that is bound next.
pub resolve_next :
    (db : Database) (count most : ℕ) (b : Binder) (v : FilterValue) (more : List FilterValue)
    → db ≢ Database.mysql
    → InStep count most b
    → b.next < 256
    → resolve count most (b.binds ++ v ∷ more) (placeholder_text db b.next) ≡ some v
resolve_next Database.mysql count most b v more ne h small = absurd (ne refl)
resolve_next Database.sqlite count most b v more ne h small =
    resolve_number count most b.next (b.binds ++ v ∷ more) (omega arith) (omega arith)
    ∙ get_elem?_here b.binds more v _ (omega arith)
resolve_next Database.postgres count most b v more ne h small =
    resolve_number count most b.next (b.binds ++ v ∷ more) (omega arith) (omega arith)
    ∙ get_elem?_here b.binds more v _ (omega arith)

-- The state after one more value.
abbrev pub bound : Database → FilterValue → Binder → Binder
bound db v b = record { binds = b.binds ++ v ∷ []; next = advance db b.next }

pub bound-InStep :
    (db : Database) (count most : ℕ) (b : Binder) (v : FilterValue)
    → db ≢ Database.mysql
    → InStep count most b
    → b.next + 1 < 256
    → InStep count most (bound db v b)
bound-InStep Database.mysql count most b v ne h small = absurd (ne refl)
bound-InStep Database.sqlite count most b v ne h small = record {
  after_text = omega (arith, length-append b.binds (v ∷ []));
  step = omega (arith, length-append b.binds (v ∷ []));
}
bound-InStep Database.postgres count most b v ne h small = record {
  after_text = omega (arith, length-append b.binds (v ∷ []));
  step = omega (arith, length-append b.binds (v ∷ []));
}

-- The state after a list of values.
abbrev pub bound_all : Database → List FilterValue → Binder → Binder
bound_all db [] b = b
bound_all db (v ∷ vs) b = bound_all db vs (bound db v b)

pub binds-bound_all :
    (db : Database) (vs : List FilterValue) (b : Binder) → (bound_all db vs b).binds ≡ b.binds ++ vs
binds-bound_all db [] b = rw append-nil
binds-bound_all db (v ∷ vs) b = rw (binds-bound_all db vs (bound db v b)) (append_assoc b.binds _ _)

pub bound_all-append :
    (db : Database) (vs ws : List FilterValue) (b : Binder)
    → bound_all db (vs ++ ws) b ≡ bound_all db ws (bound_all db vs b)
bound_all-append db [] ws b = refl
bound_all-append db (v ∷ vs) ws b = bound_all-append db vs ws (bound db v b)

-- The placeholders of a list of values that are bound in turn, from a counter on.
abbrev pub texts : Database → ℕ → List FilterValue → List Text
texts db n [] = []
texts db n (v ∷ vs) = placeholder_text db n ∷ texts db (advance db n) vs

pub texts-append :
    (db : Database) (vs ws : List FilterValue) (b : Binder)
    → texts db b.next (vs ++ ws) ≡ texts db b.next vs ++ texts db (bound_all db vs b).next ws
texts-append db [] ws b = refl
texts-append db (v ∷ vs) ws b =
    ap (λ l. placeholder_text db b.next ∷ l) (texts-append db vs ws (bound db v b))

next-bound :
    (db : Database) (v : FilterValue) (b : Binder)
    → db ≢ Database.mysql
    → b.next + 1 < 256
    → (bound db v b).next ≡ b.next + 1
next-bound Database.mysql v b ne small = absurd (ne refl)
next-bound Database.sqlite v b ne small = omega arith
next-bound Database.postgres v b ne small = omega arith

module _ (db : Database) (count most : ℕ) (more : List FilterValue) (ne : db ≢ Database.mysql) where
  -- For the databases with numbered placeholders, from a state where the numbers are in step: the
  -- placeholders of values that are bound in turn stand for these values, whatever is bound later,
  -- as long as the numbers fit the u8 that counts them.
  pub resolve-texts :
      (vs : List FilterValue) (b : Binder)
      → InStep count most b
      → b.next + length vs ≤ 256
      → map (resolve count most (b.binds ++ (vs ++ more))) (texts db b.next vs) ≡ map some vs
  resolve-texts [] b h small = refl
  resolve-texts (v ∷ []) b h small = rw (resolve_next db count most b v more ne h (omega arith))
  resolve-texts (v ∷ w ∷ vs) b h small =
      let e = next-bound db v b ne (omega arith) in
      let rest =
        resolve-texts (w ∷ vs) (bound db v b) (bound-InStep db count most b v ne h (omega arith))
          (omega arith) in
      let same = append_assoc b.binds (v ∷ []) ((w ∷ vs) ++ more) in
      let first = resolve_next db count most b v ((w ∷ vs) ++ more) ne h (omega arith) in
      let others =
        ap (λ l. map (resolve count most l) (texts db (advance db b.next) (w ∷ vs))) (sym same)
        ∙ rest in
      λ i. first i ∷ others i
