-- ===== src/Builder/Root.antt =====
-- sqlx-data-params/src/builder.rs: `ParamsBuilder` and the trait `HasParams`.
use sqlx_data.Prelude.{ℕ, some}
use sqlx_data.Params
use sqlx_data.Params.{Params, IntoParams}

pub record ParamsBuilder : Type 0 where
  pub params : Params

-- `params_mut` as a pair of a reader and a writer
pub record HasParams (P : Type 0) : Type 0 where
  pub read : P → Params
  pub write : Params → P → P

instance abbrev pub root_params : HasParams ParamsBuilder
root_params = record { read = λ b. b.params; write = λ p b. record b { params = p } }

-- ParamsBuilder::new
abbrev pub new : ParamsBuilder
new = record { params = Params.default }

unfoldable pub limit : ℕ → ParamsBuilder → ParamsBuilder
limit n b = let p = b.params in record b { params = record p { limit = some n } }

unfoldable pub offset : ℕ → ParamsBuilder → ParamsBuilder
offset n b = let p = b.params in record b { params = record p { offset = some n } }

abbrev pub build : ParamsBuilder → Params
build b = b.params

instance abbrev pub from_builder : IntoParams ParamsBuilder
from_builder = record { into_params = build }
