-- ===== src/Prelude/Texts/Laws.antt =====
-- Laws of the methods of texts: splitting what was joined, trimming, and replacing one character.
use Prim.Native.Nat.{ℕ}
use mathlib.Core.Path.{◌≡◌, refl, ap, ◌∙◌}
use mathlib.Core.Bool.{Bool, true, false, not}
use mathlib.Core.List.{List, [], ◌∷◌, ◌++◌}
use mathlib.Core.Option.{some}
use native.Mathlib.Omega.{arith}
use sqlx_data.Prelude.Lists.{All, is_empty}
use sqlx_data.Prelude.Texts.{Text}
use sqlx_data.Prelude.Texts.Methods.{
  has_char, split, split_once, is_whitespace, trim_start, trim_end_matches, trim, join,
}

pub has_char-append :
    (s t : Text) (c : ℕ) → has_char s c ≡ false → has_char t c ≡ false → has_char (s ++ t) c ≡ false
unfolding has_char
has_char-append [] t c h k = k
has_char-append (d ∷ s) t c h k = ground (arith, has_char-append s t c)

pub has_char_right : (s t : Text) (c : ℕ) → has_char (s ++ t) c ≡ false → has_char t c ≡ false
unfolding has_char
has_char_right [] t c h = h
has_char_right (d ∷ s) t c h = has_char_right s t c (ground arith)

split_none : (sep : ℕ) (s : Text) → has_char s sep ≡ false → split sep s ≡ s ∷ []
unfolding split has_char
split_none sep [] h = refl
split_none sep (c ∷ s) h = ground (arith, split_none sep s)

split-append :
    (sep : ℕ) (s t : Text) → has_char s sep ≡ false → split sep (s ++ sep ∷ t) ≡ s ∷ split sep t
unfolding split has_char
split-append sep [] t h = ground arith
split-append sep (c ∷ s) t h = ground (arith, split-append sep s t)

-- What was joined by a character that stands in no part splits into the parts.
pub split-join :
    (sep : ℕ) (s : Text) (parts : List Text)
    → All (λ t. has_char t sep ≡ false) (s ∷ parts)
    → split sep (join (sep ∷ []) (s ∷ parts)) ≡ s ∷ parts
unfolding join
split-join sep s [] (h, hs) = split_none sep s h
split-join sep s (t ∷ parts) (h, hs) =
    split-append sep s (join (sep ∷ []) (t ∷ parts)) h ∙ ap (λ l. s ∷ l) (split-join sep t parts hs)

pub split_once-append :
    (sep : ℕ) (s t : Text) → has_char s sep ≡ false → split_once sep (s ++ sep ∷ t) ≡ some (s, t)
unfolding split_once has_char
split_once-append sep [] t h = ground arith
split_once-append sep (c ∷ s) t h = ground (arith, split_once-append sep s t)

-- There is a first character, and it is no space.
abbrev pub starts_well : Text → Bool
starts_well [] = false
starts_well (c ∷ s) = not (is_whitespace c)

-- The last character, if there is one, is no space.
abbrev pub ends_well : Text → Bool
ends_well [] = true
ends_well (c ∷ []) = not (is_whitespace c)
ends_well (c ∷ d ∷ s) = ends_well (d ∷ s)

pub ends_well-append : (s t : Text) (c : ℕ) → ends_well (s ++ c ∷ t) ≡ ends_well (c ∷ t)
ends_well-append [] t c = refl
ends_well-append (d ∷ []) t c = refl
ends_well-append (d ∷ e ∷ s) t c = ends_well-append (e ∷ s) t c

trim_end_id : (s : Text) → ends_well s ≡ true → trim_end_matches is_whitespace s ≡ s
unfolding trim_end_matches
trim_end_id [] h = refl
trim_end_id (c ∷ []) h = ground arith
trim_end_id (c ∷ d ∷ s) h = rw (trim_end_id (d ∷ s) h, trim_end_matches) refl

trim_start_id : (s : Text) → starts_well s ≡ true → trim_start s ≡ s
unfolding trim_start
trim_start_id [] h = refl
trim_start_id (c ∷ s) h = ground arith

pub trim_id : (s : Text) → starts_well s ≡ true → ends_well s ≡ true → trim s ≡ s
unfolding trim
trim_id s h k = ap (trim_end_matches is_whitespace) (trim_start_id s h) ∙ trim_end_id s k

pub starts_well-append : (s t : Text) → starts_well s ≡ true → starts_well (s ++ t) ≡ true
starts_well-append [] t h = cc
starts_well-append (c ∷ s) t h = h

trim_end_ne_nil :
    (c : ℕ) (s : Text)
    → is_whitespace c ≡ false
    → is_empty (trim_end_matches is_whitespace (c ∷ s)) ≡ false
unfolding trim_end_matches
trim_end_ne_nil c s h = ground arith

pub trim_ne_nil : (s : Text) → starts_well s ≡ true → is_empty (trim s) ≡ false
unfolding trim
trim_ne_nil [] h = cc
trim_ne_nil (c ∷ s) h = rw (trim_start_id (c ∷ s) h) (trim_end_ne_nil c s (ground arith))
