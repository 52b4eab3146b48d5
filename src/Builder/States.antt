-- ===== src/Builder/States.antt =====
-- sqlx-data-params/src/builder.rs: the markers of the two typestates.

-- `Safe` and `Unsafe`
pub data Security : Type 0 where
  safe unsafe : Security

-- `Initial`, `FirstPage`, `After` and `Before`
pub data CursorState : Type 0 where
  initial first_page after before : CursorState
