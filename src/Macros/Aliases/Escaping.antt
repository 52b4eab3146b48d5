-- ===== src/Macros/Aliases/Escaping.antt =====
-- The escaping of contents, and what undoes it.
use sqlx_data.Prelude.{
  ℕ, ◌==◌, ◌≡◌, refl, sym, ap, ◌∙◌, Text, codes, true, false, [], ◌∷◌, arith, ==_iff, Bool-cases,
  inl, inr,
}
use sqlx_data.Prelude.Texts.Methods.{has_char, starts_with, replace_from, replace, is_whitespace}
use sqlx_data.Prelude.Texts.Laws.{ends_well}
use sqlx_data.Macros.Aliases.{quote, semicolon, escape_content, unescape_content}

-- Each quote with a backslash in front.
shown : Text → Text
shown s = replace quote (codes "\\\"") s

shown_quote : (c : ℕ) (s : Text) → (c == b'"') ≡ true → shown (c ∷ s) ≡ b'\\' ∷ b'"' ∷ shown s
unfolding shown replace replace_from starts_with
shown_quote c s h = ground arith

shown_other : (c : ℕ) (s : Text) → (c == b'"') ≡ false → shown (c ∷ s) ≡ c ∷ shown s
unfolding shown replace replace_from starts_with
shown_other c s h = ground arith

shown_nil : shown [] ≡ []
unfolding shown replace replace_from
shown_nil = refl

starts_with_other : (c : ℕ) (s : Text) → (c == b'"') ≡ false → starts_with (c ∷ s) quote ≡ false
unfolding starts_with
starts_with_other c s h = ground arith

starts_with-shown : (s : Text) → starts_with (shown s) quote ≡ false
unfolding starts_with
starts_with-shown [] = rw shown_nil refl
starts_with-shown (c ∷ s) = elim (Bool-cases (c == b'"')) [
  | inl e ↦ rw (shown_quote c s e) refl
  | inr e ↦ rw (shown_other c s e) (starts_with_other c (shown s) e)
]

hidden : Text → Text
hidden s = replace (codes "\\\"") quote s

hidden_nil : hidden [] ≡ []
unfolding hidden replace replace_from
hidden_nil = refl

hidden_escape : (s : Text) → hidden (b'\\' ∷ b'"' ∷ s) ≡ b'"' ∷ hidden s
unfolding hidden replace replace_from starts_with
hidden_escape s = refl

hidden_other : (c : ℕ) (s : Text) → starts_with s quote ≡ false → hidden (c ∷ s) ≡ c ∷ hidden s
unfolding hidden replace replace_from starts_with
hidden_other c [] h = ground arith
hidden_other c (d ∷ s) h = ground arith

hidden-shown : (s : Text) → hidden (shown s) ≡ s
hidden-shown [] = rw (shown_nil, hidden_nil) refl
hidden-shown (c ∷ s) = elim (Bool-cases (c == b'"')) [
  | inl e ↦
      let is_quote = (==_iff c b'"').0 e in
      rw (shown_quote c s e, hidden_escape (shown s), hidden-shown s, is_quote) refl
  | inr e ↦
      rw (shown_other c s e, hidden_other c (shown s) (starts_with-shown s), hidden-shown s) refl
]

replace_absent : (d : ℕ) (new s : Text) → has_char s d ≡ false → replace (d ∷ []) new s ≡ s
unfolding replace replace_from starts_with has_char
replace_absent d new [] h = refl
replace_absent d new (c ∷ s) h = ground (arith, replace_absent d new s)

replace_absent_pair :
    (b d : ℕ) (new s : Text) → has_char s d ≡ false → replace (b ∷ d ∷ []) new s ≡ s
unfolding replace replace_from starts_with has_char
replace_absent_pair b d new [] h = refl
replace_absent_pair b d new (c ∷ []) h = ground arith
replace_absent_pair b d new (c ∷ e ∷ s) h = ground (arith, replace_absent_pair b d new (e ∷ s))

has_char-shown :
    (s : Text) (d : ℕ) → (b'\\' == d) ≡ false → has_char s d ≡ false → has_char (shown s) d ≡ false
unfolding has_char
has_char-shown [] d b h = rw shown_nil refl
has_char-shown (c ∷ s) d b h = elim (Bool-cases (c == b'"')) [
  | inl e ↦ rw (shown_quote c s e) (ground (arith, has_char-shown s d))
  | inr e ↦ rw (shown_other c s e) (ground (arith, has_char-shown s d))
]

shown_cons : (c : ℕ) (s : Text) → (d : ℕ) × (t : Text) × (shown (c ∷ s) ≡ d ∷ t)
shown_cons c s = elim (Bool-cases (c == b'"')) [
  | inl e ↦ (b'\\', b'"' ∷ shown s, shown_quote c s e)
  | inr e ↦ (c, shown s, shown_other c s e)
]

-- One character more in front changes nothing behind.
ends_well_later :
    (c : ℕ) (t : Text) (d : ℕ) (u : Text) → t ≡ d ∷ u → ends_well (c ∷ t) ≡ ends_well t
ends_well_later c t d u e = rw e refl

quote_is_no_space : (c : ℕ) → (c == b'"') ≡ true → ends_well (c ∷ []) ≡ true
unfolding is_whitespace
quote_is_no_space c h = rw ((==_iff c b'"').0 h) refl

ends_well_quoted : ends_well (b'\\' ∷ b'"' ∷ []) ≡ true
unfolding is_whitespace
ends_well_quoted = refl

ends_well-shown : (s : Text) → ends_well (shown s) ≡ ends_well s
ends_well-shown [] = rw shown_nil refl
ends_well-shown (c ∷ []) = elim (Bool-cases (c == b'"')) [
  | inl e ↦ rw (shown_quote c [] e, shown_nil) (ends_well_quoted ∙ sym (quote_is_no_space c e))
  | inr e ↦ rw (shown_other c [] e, shown_nil) refl
]
ends_well-shown (c ∷ d ∷ s) =
    let (e, t, later) = shown_cons d s in
    elim (Bool-cases (c == b'"')) [
      | inl q ↦
          rw (shown_quote c (d ∷ s) q)
            (ends_well_later b'"' (shown (d ∷ s)) e t later ∙ ends_well-shown (d ∷ s))
      | inr q ↦
          rw (shown_other c (d ∷ s) q)
            (ends_well_later c (shown (d ∷ s)) e t later ∙ ends_well-shown (d ∷ s))
    ]

escape_shown : (s : Text) → has_char s b';' ≡ false → escape_content s ≡ shown s
unfolding escape_content shown
escape_shown s h = replace_absent b';' (codes "\\;") (shown s) (has_char-shown s b';' refl h)

-- The escaping is undone, for contents without a semicolon.
pub unescape-escape : (s : Text) → has_char s b';' ≡ false → unescape_content (escape_content s) ≡ s
unfolding unescape_content hidden
unescape-escape s h = rw (escape_shown s h) (
    ap (replace (codes "\\;") semicolon) (hidden-shown s)
    ∙ replace_absent_pair b'\\' b';' semicolon s h)

pub has_char-escape :
    (s : Text) → has_char s b';' ≡ false → has_char (escape_content s) b';' ≡ false
has_char-escape s h = rw (escape_shown s h) (has_char-shown s b';' refl h)

pub ends_well-escape :
    (s : Text) → has_char s b';' ≡ false → ends_well s ≡ true → ends_well (escape_content s) ≡ true
ends_well-escape s h e = rw (escape_shown s h) (ends_well-shown s ∙ e)
