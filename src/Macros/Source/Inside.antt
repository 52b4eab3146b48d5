-- ===== src/Macros/Source/Inside.antt =====
-- Which files `SqlSource` reads.
use sqlx_data.Prelude.{
  ℕ, ◌==◌, ◌≡◌, ◌≢◌, ◌⊎◌, refl, ◌∙◌, Text, codes, Bool, true, false, List, [], ◌∷◌, All, inl, inr,
  arith, Option, none, some, Bool-cases,
}
use sqlx_data.Prelude.Texts.Methods.{has_text, has_char, starts_with, ends_with, split, push_first}
use sqlx_data.Error.{Result, ok, err, map_err, split_ok}
use sqlx_data.Macros.Source.{
  SqlSource, Files, is_absolute, has_drive, validate_file_path, or_else, read_from, failed_to_read,
  read_file_content, resolve_content,
}

abbrev pub dots : Text
dots = b'.' ∷ b'.' ∷ []

-- The parts of a path between the separators are no steps to the directory above.
abbrev pub StaysBelow : ℕ → Text → Type 0
StaysBelow sep path = All (λ part. part ≢ dots) (split sep path)

abbrev starts_with_dot : Text → Bool
starts_with_dot s = starts_with s (b'.' ∷ [])

-- A part in front is a beginning of the text.
abbrev FirstIsPrefix : Text → List Text → Type 0
FirstIsPrefix s [] = ⊥
FirstIsPrefix s (part ∷ parts) = starts_with_dot part ≡ true → starts_with_dot s ≡ true

module _ (sep : ℕ) where
  push_first-FirstIsPrefix :
      (c : ℕ) (s : Text) (parts : List Text) → FirstIsPrefix (c ∷ s) (push_first c parts)
  unfolding starts_with
  push_first-FirstIsPrefix c s [] = λ h. h
  push_first-FirstIsPrefix c s (part ∷ parts) = λ h. h

  split-FirstIsPrefix : (s : Text) → FirstIsPrefix s (split sep s)
  unfolding split starts_with
  split-FirstIsPrefix [] = λ h. h
  split-FirstIsPrefix (c ∷ s) = elim (Bool-cases (c == sep)) [
    | inl e ↦ rw e (λ h. cc)
    | inr e ↦ rw e (push_first-FirstIsPrefix c s (split sep s))
  ]

  push_first-free :
      (c : ℕ) (s : Text) (parts : List Text)
      → has_text (c ∷ s) dots ≡ false
      → FirstIsPrefix s parts
      → All (λ part. has_text part dots ≡ false) parts
      → All (λ part. has_text part dots ≡ false) (push_first c parts)
  unfolding has_text starts_with
  push_first-free c s [] h p all = absurd p
  push_first-free c s (part ∷ parts) h p (free, all) = (
    elim (Bool-cases (starts_with_dot part)) [
      | inl e ↦ let q = p e in ground arith
      | inr e ↦ ground arith
    ],
    all,
  )

  split-free :
      (s : Text) → has_text s dots ≡ false → All (λ part. has_text part dots ≡ false) (split sep s)
  unfolding split has_text starts_with
  split-free [] h = (refl, tt)
  split-free (c ∷ s) h =
      let ih = split-free s (ground arith) in
      elim (Bool-cases (c == sep)) [
        | inl e ↦ rw e (refl, ih)
        | inr e ↦ rw e (push_first-free c s (split sep s) h (split-FirstIsPrefix s) ih)
      ]

has_text-dots : has_text dots dots ≡ true
unfolding has_text
has_text-dots = refl

no_dots :
    (parts : List Text)
    → All (λ part. has_text part dots ≡ false) parts
    → All (λ part. part ≢ dots) parts
no_dots [] h = tt
no_dots (part ∷ parts) (h, hs) = ((λ e. cc (has_text-dots, h, e)), no_dots parts hs)

pub record IsInside (path : Text) : Type 0 where
  pub below_slash : StaysBelow b'/' path
  pub below_backslash : StaysBelow b'\\' path
  pub relative : is_absolute path ≡ false
  pub no_drive : has_drive path ≡ false
  pub sql_file : ends_with path (codes ".sql") ≡ true
  pub no_null : has_char path 0 ≡ false

-- What the tests of the code found.
record Tested (path : Text) : Type 0 where
  no_dots_in : has_text path dots ≡ false
  relative_path : is_absolute path ≡ false
  without_drive : has_drive path ≡ false
  a_sql_file : ends_with path (codes ".sql") ≡ true
  without_null : has_char path 0 ≡ false

validate-Tested : (path : Text) → validate_file_path path ≡ ok tt → Tested path
unfolding validate_file_path
validate-Tested path h = ground arith

validate-IsInside : (path : Text) → validate_file_path path ≡ ok tt → IsInside path
validate-IsInside path h =
    let t = validate-Tested path h in
    record {
      below_slash = no_dots (split b'/' path) (split-free b'/' path t.no_dots_in);
      below_backslash = no_dots (split b'\\' path) (split-free b'\\' path t.no_dots_in);
      relative = t.relative_path;
      no_drive = t.without_drive;
      sql_file = t.a_sql_file;
      no_null = t.without_null;
    }

-- The directory of the package is unknown, or the path cannot be read there.
abbrev pub FailsInPackage : Files → Text → Type 0
FailsInPackage files path =
    (files.manifest_dir ≡ none)
    ⊎ ((dir e : Text) × (files.manifest_dir ≡ some dir)
        × (files.read_to_string (files.join dir path) ≡ err e))

-- The content was read at the path joined to the directory of the package, or, only if that fails, at
-- the path itself, which is relative to the current directory.
abbrev pub IsRead : Files → Text → Text → Type 0
IsRead files path content =
    ((dir : Text) × (files.manifest_dir ≡ some dir)
      × (files.read_to_string (files.join dir path) ≡ ok content))
    ⊎ (FailsInPackage files path × (files.read_to_string path ≡ ok content))

abbrev pub ComesFrom : Files → SqlSource → Text → Type 0
ComesFrom files (SqlSource.inline sql) content = content ≡ sql
ComesFrom files (SqlSource.file path) content = IsInside path × IsRead files path content

map_err_ok : (e : Text → Text) (r : Result Text Text) (t : Text) → map_err e r ≡ ok t → r ≡ ok t
map_err_ok e (ok t') t h = cc
map_err_ok e (err x) t h = cc

module _ (files : Files) (path content : Text) where
  or_else-IsRead :
      (dir : Text) (r : Result Text Text)
      → files.manifest_dir ≡ some dir
      → files.read_to_string (files.join dir path) ≡ r
      → or_else files r path ≡ ok content
      → IsRead files path content
  or_else-IsRead dir (ok t) e e' h = inl (dir, e, e' ∙ h)
  or_else-IsRead dir (err x) e e' h = inr (inr (dir, x, e, e'), h)

  read_from-IsRead :
      (dir : Option Text)
      → files.manifest_dir ≡ dir
      → read_from files dir path ≡ ok content
      → IsRead files path content
  read_from-IsRead none e h = inr (inl e, h)
  read_from-IsRead (some dir) e h =
      or_else-IsRead dir (files.read_to_string (files.join dir path)) e refl h

  read_file_content-ComesFrom :
      read_file_content files path ≡ ok content → IsInside path × IsRead files path content
  unfolding read_file_content
  read_file_content-ComesFrom h =
      let (u, valid, r) = split_ok (validate_file_path path) h in
      (
        validate-IsInside path valid,
        read_from-IsRead files.manifest_dir refl (
            map_err_ok (failed_to_read files path) (read_from files files.manifest_dir path) content
              r),
      )

-- Whenever SQL comes out, it is the inline text, or the content of a file whose given path ends in .sql,
-- is relative, has no part `..` between slashes or backslashes, no drive letter and no NUL. The file was
-- read at this path joined to the directory of the package; or at the path itself, so relative to the
-- current directory, and then only if the directory of the package is unknown or the first read failed.
-- What `join` makes of a directory and a path is a parameter, and so are links in the file system.
pub resolve_content-ComesFrom :
    (files : Files) (source : SqlSource) (content : Text)
    → resolve_content files source ≡ ok content
    → ComesFrom files source content
unfolding resolve_content
resolve_content-ComesFrom files (SqlSource.inline sql) content h = cc
resolve_content-ComesFrom files (SqlSource.file path) content h =
    read_file_content-ComesFrom files path content h
