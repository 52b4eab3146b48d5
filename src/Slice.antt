-- ===== src/Slice.antt =====
-- sqlx-data-params/src/slice.rs: numbered pages without a total count.
use sqlx_data.Prelude.{ℕ, ◌-◌, max, Bool, true}
use sqlx_data.Serial.{saturating_mul}

pub record SliceParams : Type 0 where
  pub page : ℕ
  pub page_size : ℕ
  pub disable_total_count : Bool

-- `Default`
abbrev pub default : SliceParams
default = record { page = 1; page_size = 20; disable_total_count = true }

unfoldable pub new : ℕ → ℕ → SliceParams
new page per_page = record {
  page = max page 1;
  page_size = max per_page 1;
  disable_total_count = true;
}

unfoldable pub offset : SliceParams → ℕ
offset p = saturating_mul (p.page - 1) p.page_size

unfoldable pub limit : SliceParams → ℕ
limit p = p.page_size

unfoldable pub with_disable_total_count : Bool → SliceParams → SliceParams
with_disable_total_count disable p = record p { disable_total_count = disable }
