-- ===== src/Serial.antt =====
-- sqlx-data-params/src/serial.rs: numbered pages with a total count. A u32 is a number below 2 ^ 32.
pub mod Bounds
use sqlx_data.Prelude.{ℕ, ◌-◌, ◌*◌, ◌^◌, min, max}

abbrev pub max_u32 : ℕ
max_u32 = 2 ^ 32 - 1

-- `saturating_mul` of two u32
abbrev pub saturating_mul : ℕ → ℕ → ℕ
saturating_mul a b = min (a * b) max_u32

pub record SerialParams : Type 0 where
  pub page : ℕ
  pub page_size : ℕ

-- `Default`
abbrev pub default : SerialParams
default = record { page = 1; page_size = 20 }

unfoldable pub new : ℕ → ℕ → SerialParams
new page per_page = record { page = max page 1; page_size = max per_page 1 }

unfoldable pub offset : SerialParams → ℕ
offset p = saturating_mul (p.page - 1) p.page_size

unfoldable pub limit : SerialParams → ℕ
limit p = p.page_size
