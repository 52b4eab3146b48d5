-- ===== src/Value.antt =====
-- sqlx-data-params/src/filter.rs: bind values and their conversions. The build without the optional
-- type features, so without their variants. A float is kept as its IEEE bit pattern, since the
-- code never computes with one.
use sqlx_data.Prelude.{ℕ, Text, Bool, Option, none, some, List, [], ◌∷◌}
use sqlx_data.Prelude.Int.{ℤ}

mutual
  pub data FilterValue : Type 0 where
    string : Text → FilterValue
    int : ℤ → FilterValue
    uint : ℕ → FilterValue
    float : ℕ → FilterValue
    bool : Bool → FilterValue
    array : Elements → FilterValue
    blob : List ℕ → FilterValue
    null : FilterValue

  -- `Vec<FilterValue>` inside `Array`
  pub data Elements : Type 0 where
    nil : Elements
    cons : FilterValue → Elements → Elements

abbrev pub to_list : Elements → List FilterValue
to_list nil = []
to_list (cons v vs) = v ∷ to_list vs

abbrev pub of_list : List FilterValue → Elements
of_list [] = nil
of_list (v ∷ vs) = cons v (of_list vs)

-- `Into<FilterValue>`
pub record Into {ℓ} (A : Type ℓ) : Type ℓ where
  pub into : A → FilterValue

instance abbrev pub from_value : Into FilterValue
from_value = record { into = λ v. v }

-- From<String>, From<&String>, From<&str>
instance abbrev pub from_text : Into Text
from_text = record { into = string }

-- From<i8>, From<i16>, From<i32>, From<i64>: the widening keeps the number.
instance abbrev pub from_signed : Into ℤ
from_signed = record { into = int }

-- From<u8>, From<u16>, From<u32>, From<u64>
instance abbrev pub from_unsigned : Into ℕ
from_unsigned = record { into = uint }

instance abbrev pub from_bool : Into Bool
from_bool = record { into = bool }

module _ {ℓ} {A : Type ℓ} ⦃i : Into A⦄ where
  abbrev into_option : Option A → FilterValue
  into_option none = null
  into_option (some a) = i.into a

  abbrev into_elements : List A → Elements
  into_elements [] = nil
  into_elements (a ∷ as') = cons (i.into a) (into_elements as')

module _ {ℓ} {A : Type ℓ} where
  instance abbrev pub from_option : ⦃i : Into A⦄ → Into (Option A)
  from_option ⦃i⦄ = record { into = into_option ⦃i = i⦄ }

  -- From<Vec<T>>, and likewise slices and fixed arrays
  abbrev pub from_vec : ⦃i : Into A⦄ → Into (List A)
  from_vec ⦃i⦄ = record { into = λ vec. array (into_elements ⦃i = i⦄ vec) }
