-- ===== src/Macros/Aliases/Injection.antt =====
-- Aliases through the hidden attribute: written, and read back.
use sqlx_data.Prelude.{
  ◌≡◌, refl, ap, ◌∙◌, Text, text_eq, true, false, List, [], ◌∷◌, ◌++◌, append_assoc, append-nil,
  map, is_empty, All,
}
use sqlx_data.Prelude.Texts.Methods.{has_char, split, trim, join, is_whitespace}
use sqlx_data.Prelude.Texts.Laws.{
  starts_well, ends_well, ends_well-append, starts_well-append, trim_id, trim_ne_nil,
  has_char-append, split-join, split_once-append,
}
use sqlx_data.Error.{ok, ◌>>=◌}
use sqlx_data.Macros.Aliases.{
  Entries, AliasManager, new, insert, add_alias, escape_content, serialize_entry,
  serialize_for_injection, semicolon, read_pair, read_pairs, deserialize_from_injection,
}
use sqlx_data.Macros.Aliases.Escaping.{unescape-escape, has_char-escape, ends_well-escape}

-- A name without spaces at its ends and without the signs of the format, and a content that holds
-- no semicolon and does not end in a space.
pub record IsPlain (p : Text × Text) : Type 0 where
  pub name_starts : starts_well (p.0) ≡ true
  pub name_ends : ends_well (p.0) ≡ true
  pub name_without_equals : has_char (p.0) b'=' ≡ false
  pub name_without_semicolon : has_char (p.0) b';' ≡ false
  pub content_without_semicolon : has_char (p.1) b';' ≡ false
  pub content_ends : ends_well (p.1) ≡ true

-- No two names are equal, as in a map, and none is among those before.
abbrev pub AreDistinct : Entries → Entries → Type 0
AreDistinct before [] = Unit
AreDistinct before (p ∷ entries) =
    All (λ (q : Text × Text). text_eq (q.0) (p.0) ≡ false) before
    × AreDistinct (before ++ p ∷ []) entries

insert_new :
    (name content : Text) (entries : Entries)
    → All (λ (q : Text × Text). text_eq (q.0) name ≡ false) entries
    → insert name content entries ≡ entries ++ (name, content) ∷ []
unfolding insert
insert_new name content [] h = refl
insert_new name content ((n, c) ∷ entries) (h, hs) = rw (h, insert_new name content entries hs) refl

serialize_entry_lem :
    (name content : Text) → serialize_entry (name, content) ≡ name ++ b'=' ∷ escape_content content
unfolding serialize_entry
serialize_entry_lem name content = refl

serialize_entry_ne_nil :
    (name content : Text) → is_empty (name ++ b'=' ∷ escape_content content) ≡ false
serialize_entry_ne_nil [] content = refl
serialize_entry_ne_nil (c ∷ name) content = refl

has_char_equals : (s : Text) → has_char s b';' ≡ false → has_char (b'=' ∷ s) b';' ≡ false
unfolding has_char
has_char_equals s h = h

equals_ends_well : (s : Text) → ends_well s ≡ true → ends_well (b'=' ∷ s) ≡ true
unfolding is_whitespace
equals_ends_well [] h = refl
equals_ends_well (c ∷ s) h = h

read_pairs_step :
    (pair : Text) (pairs : List Text) (m : AliasManager)
    → is_empty (trim pair) ≡ false
    → read_pairs (pair ∷ pairs) m ≡ (read_pair (trim pair) m >>= read_pairs pairs)
unfolding read_pairs
read_pairs_step pair pairs m h = rw h refl

module _ (name content : Text) (h : IsPlain (name, content)) where
  written_ends : ends_well (name ++ b'=' ∷ escape_content content) ≡ true
  written_ends =
      ends_well-append name (escape_content content) b'='
      ∙ equals_ends_well (escape_content content)
          (ends_well-escape content h.content_without_semicolon h.content_ends)

  trim-written : trim (serialize_entry (name, content)) ≡ serialize_entry (name, content)
  trim-written = rw serialize_entry_lem (
      trim_id (name ++ b'=' ∷ escape_content content)
        (starts_well-append name (b'=' ∷ escape_content content) h.name_starts) written_ends)

  written_without_semicolon : has_char (serialize_entry (name, content)) b';' ≡ false
  written_without_semicolon = rw serialize_entry_lem (
      has_char-append name (b'=' ∷ escape_content content) b';' h.name_without_semicolon (
        has_char_equals (escape_content content)
          (has_char-escape content h.content_without_semicolon)))

  read_pair-written :
      (m : AliasManager)
      → read_pair (serialize_entry (name, content)) m ≡ ok (add_alias name content m)
  unfolding read_pair
  read_pair-written m =
      rw
        (
          serialize_entry_lem name content,
          split_once-append b'=' name (escape_content content) h.name_without_equals,
          read_pair,
          trim_id name h.name_starts h.name_ends,
          unescape-escape content h.content_without_semicolon,
        )
        refl

  read_pairs-written :
      (pairs : List Text) (m : AliasManager)
      → read_pairs (serialize_entry (name, content) ∷ pairs) m
        ≡ read_pairs pairs (add_alias name content m)
  read_pairs-written pairs m =
      let pair = serialize_entry (name, content) in
      read_pairs_step pair pairs m
        (rw (trim-written, serialize_entry_lem) (serialize_entry_ne_nil name content))
      ∙ rw (trim-written, read_pair-written m) refl

written_parts :
    (entries : Entries)
    → All IsPlain entries
    → All (λ t. has_char t b';' ≡ false) (map serialize_entry entries)
written_parts [] h = tt
written_parts ((name, content) ∷ entries) (h, hs) =
    (written_without_semicolon name content h, written_parts entries hs)

read_pairs-map :
    (before entries : Entries)
    → All IsPlain entries
    → AreDistinct before entries
    → read_pairs (map serialize_entry entries) (record { aliases = before })
      ≡ ok (record { aliases = before ++ entries })
unfolding read_pairs
read_pairs-map before [] h d = rw append-nil refl
read_pairs-map before ((name, content) ∷ entries) (h, hs) (d, ds) =
    read_pairs-written name content h (map serialize_entry entries) (record { aliases = before })
    ∙ ap (λ l. read_pairs (map serialize_entry entries) (record { aliases = l }))
        (insert_new name content before d)
    ∙ read_pairs-map (before ++ (name, content) ∷ []) entries hs ds
    ∙ ap (λ l. ok (record { aliases = l })) (append_assoc before ((name, content) ∷ []) entries)

serialized :
    (p : Text × Text) (entries : Entries)
    → serialize_for_injection (record { aliases = p ∷ entries })
      ≡ join semicolon (serialize_entry p ∷ map serialize_entry entries)
unfolding serialize_for_injection serialize_entry
serialized p entries = refl

join-starts_well :
    (s : Text) (parts : List Text)
    → starts_well s ≡ true
    → starts_well (join semicolon (s ∷ parts)) ≡ true
unfolding join
join-starts_well s [] h = h
join-starts_well s (t ∷ parts) h = starts_well-append s (semicolon ++ join semicolon (t ∷ parts)) h

written_starts_well :
    (name content : Text)
    → starts_well name ≡ true
    → starts_well (serialize_entry (name, content)) ≡ true
written_starts_well name content h =
    rw serialize_entry_lem (starts_well-append name (b'=' ∷ escape_content content) h)

deserialize_from_injection_lem :
    (s : Text)
    → is_empty (trim s) ≡ false
    → deserialize_from_injection s ≡ read_pairs (split b';' s) new
unfolding deserialize_from_injection
deserialize_from_injection_lem s h = rw h refl

read_back_nil : deserialize_from_injection (serialize_for_injection new) ≡ ok new
unfolding deserialize_from_injection serialize_for_injection trim
read_back_nil = refl

read_back :
    (entries : Entries)
    → All IsPlain entries
    → AreDistinct [] entries
    → deserialize_from_injection (serialize_for_injection (record { aliases = entries }))
      ≡ ok (record { aliases = entries })
read_back [] h d = read_back_nil
read_back ((name, content) ∷ entries) (h, hs) d =
    let pair = serialize_entry (name, content) in
    let pairs = map serialize_entry entries in
    let starts = join-starts_well pair pairs (written_starts_well name content h.name_starts) in
    ap deserialize_from_injection (serialized (name, content) entries)
    ∙ deserialize_from_injection_lem (join semicolon (pair ∷ pairs))
        (trim_ne_nil (join semicolon (pair ∷ pairs)) starts)
    ∙ ap (λ l. read_pairs l new)
        (split-join b';' pair pairs (written_parts ((name, content) ∷ entries) (h, hs)))
    ∙ read_pairs-map [] ((name, content) ∷ entries) (h, hs) d

-- For aliases under distinct names, with names and contents that the format can carry: reading
-- what was written for the hidden attribute gives the same aliases, in the same order.
pub deserialize-serialize :
    (m : AliasManager)
    → All IsPlain m.aliases
    → AreDistinct [] m.aliases
    → deserialize_from_injection (serialize_for_injection m) ≡ ok m
deserialize-serialize m h d = read_back m.aliases h d
