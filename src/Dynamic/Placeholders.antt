-- ===== src/Dynamic/Placeholders.antt =====
-- sqlx-data-parser/src/dynamic/builder.rs: `collect_numbered_placeholders` and
-- `renumber_numbered_placeholders_with_binds`. Each loop runs on fuel, one unit a round; a round takes
-- at least one character, so the length of the text is enough.
pub mod Scan
pub mod Print
pub mod Assigning
pub mod Renumbering
pub mod Layout
use sqlx_data.Prelude.{
  ℕ, zero, suc, ◌+◌, ◌-◌, ◌==◌, ltb, Text, is_ascii_digit, parse_usize, to_string, Bool, true,
  false, List, [], ◌∷◌, ◌++◌, length, is_empty, get_elem?, Option, none, some, ◌>>=?◌, map,
  if◌then◌else◌,
}
use sqlx_data.Value.{FilterValue}

-- The digits in front, and the text behind them.
abbrev pub digits : Text → Text
digits [] = []
digits (c ∷ s) = let ds = digits s in if is_ascii_digit c then c ∷ ds else []

abbrev pub after_digits : Text → Text
after_digits [] = []
after_digits (c ∷ s) = let rest = after_digits s in if is_ascii_digit c then rest else c ∷ s

-- The number that follows a dollar sign.
abbrev pub number_at : Text → Option ℕ
number_at s = if is_empty (digits s) then none else parse_usize (digits s)

abbrev pub number_here : ℕ → Text → Option ℕ
number_here c s = if c == b'$' then number_at s else none

abbrev pub includes : ℕ → List ℕ → Bool
includes n [] = false
includes n (m ∷ ms) = let rest = includes n ms in if n == m then true else rest

-- BTreeSet::insert gives false for a number that was seen.
abbrev pub unseen : List ℕ → Option ℕ → Option ℕ
unseen seen none = none
unseen seen (some n) = if includes n seen then none else some n

unfoldable pub collect_from : ℕ → Text → List ℕ → List ℕ
collect_from zero s ordered = ordered
collect_from (suc k) [] ordered = ordered
collect_from (suc k) (c ∷ s) ordered = elim (unseen ordered (number_here c s)) [
  | none ↦ collect_from k s ordered
  | some n ↦ collect_from k (after_digits s) (ordered ++ n ∷ [])
]

unfoldable pub collect_numbered_placeholders : Text → List ℕ
unfolding collect_from
collect_numbered_placeholders sql = collect_from (length sql) sql []

-- `position` of a number.
abbrev pub position : List ℕ → ℕ → Option ℕ
position [] n = none
position (m ∷ ms) n =
    let rest = position ms n in if m == n then some 0 else (rest >>=? λ i. some (suc i))

-- The place of the value of a placeholder; `none` stands for `usize::MAX`.
abbrev pub bind_position : List ℕ → ℕ → ℕ → Option ℕ
bind_position originals most old = elim (position originals old) [
  | some i ↦ some i
  | none ↦ if ltb most old then some (length originals + (old - (most + 1))) else none
]

pub record Renumbered : Type 0 where
  pub next_index : ℕ
  pub old_to_new : List (ℕ × ℕ)
  pub reordered : List FilterValue

abbrev pub lookup : List (ℕ × ℕ) → ℕ → Option ℕ
lookup [] n = none
lookup ((old, new) ∷ pairs) n = let rest = lookup pairs n in if old == n then some new else rest

abbrev pub push_some : Option FilterValue → List FilterValue → List FilterValue
push_some none vs = vs
push_some (some v) vs = vs ++ v ∷ []

abbrev pub start : Renumbered
start = record { next_index = 1; old_to_new = []; reordered = [] }

-- A character or a placeholder in front of the text that follows.
abbrev pub push_char : ℕ → Text × Renumbered → Text × Renumbered
push_char c r = (c ∷ (r.0), r.1)

abbrev pub push_number : ℕ → Text × Renumbered → Text × Renumbered
push_number n r = (b'$' ∷ (to_string n ++ (r.0)), r.1)

module _ (binds : List FilterValue) (originals : List ℕ) (most : ℕ) where
  -- The value that the code finds for an old number.
  abbrev pub value_of : ℕ → Option FilterValue
  value_of old = bind_position originals most old >>=? get_elem? binds

  -- The entry of a number that is new.
  abbrev pub add : ℕ → Renumbered → Renumbered
  add old st = record {
    next_index = st.next_index + 1;
    old_to_new = (old, st.next_index) ∷ st.old_to_new;
    reordered = push_some (value_of old) st.reordered;
  }

  -- The new number of an old one, and the state after it.
  abbrev pub assign_at : Option ℕ → ℕ → Renumbered → ℕ × Renumbered
  assign_at (some new) old st = (new, st)
  assign_at none old st = (st.next_index, add old st)

  abbrev pub assign : ℕ → Renumbered → ℕ × Renumbered
  assign old st = assign_at (lookup st.old_to_new old) old st

  -- The text that is pushed from here on, and the state at the end.
  unfoldable pub renumber_from : ℕ → Text → Renumbered → Text × Renumbered
  renumber_from zero s st = ([], st)
  renumber_from (suc k) [] st = ([], st)
  renumber_from (suc k) (c ∷ s) st = elim (number_here c s) [
    | none ↦ push_char c (renumber_from k s st)
    | some old ↦ let a = assign old st in push_number (a.0) (renumber_from k (after_digits s) (a.1))
  ]

unfoldable pub renumber : Text → List FilterValue → List ℕ → ℕ → Text × List FilterValue
unfolding renumber_from
renumber sql binds originals most =
    let r = renumber_from binds originals most (length sql) sql start in
    if is_empty ((r.1).reordered) then (sql, binds) else (r.0, (r.1).reordered)
