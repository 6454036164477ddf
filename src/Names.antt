-- ===== src/Names.antt =====
-- The names of libraries and tapes in vtladm-rc/userspace/src/main.rs, as UTF-8 bytes.
pub mod Checked
use vtladm.Prelude.{
  ℕ, Text, Bool, true, false, ◌||◌, ◌&&◌, not, List, [], ◌∷◌, ◌==◌, ltb, leb, length, all,
  if◌then◌else◌, text_eq,
}
use vtladm.Errors.{
  Result, ok, err, ◌>>◌, ensure, refuse, invalid_parameter, invalid_tape_name, empty_name,
  name_too_long, bad_name_characters, name_not_canonical,
}

abbrev between : ℕ → ℕ → ℕ → Bool
between lo hi c = leb lo c && leb c hi

-- `c.is_ascii_alphanumeric() || c == '-' || c == '_'`.
unfoldable pub is_plain : ℕ → Bool
is_plain c = between 48 57 c || between 65 90 c || between 97 122 c || c == 45 || c == 95

-- A byte that is not the first of its character.
abbrev pub is_continuation : ℕ → Bool
is_continuation c = between 128 191 c

-- Each character that is not plain becomes one `_`.
unfoldable pub sanitize_lib_dir_component : Text → Text
sanitize_lib_dir_component [] = []
sanitize_lib_dir_component (c ∷ s) =
    let rest = sanitize_lib_dir_component s in
    if is_plain c then c ∷ rest else if is_continuation c then rest else 95 ∷ rest

abbrev pub is_empty : Text → Bool
is_empty [] = true
is_empty (c ∷ s) = false

unfoldable pub validate_library_name : Text → Result (Unit {0})
unfolding sanitize_lib_dir_component all
validate_library_name name = do
  refuse (is_empty name) (invalid_parameter empty_name)
  refuse (ltb 64 (length name)) (invalid_parameter name_too_long)
  ensure (all is_plain name) (invalid_parameter bad_name_characters)
  ensure (text_eq (sanitize_lib_dir_component name) name) (invalid_parameter name_not_canonical)

-- `/ \ : * ? " < > |` and NUL.
abbrev pub invalid_chars : List ℕ
invalid_chars = 47 ∷ 92 ∷ 58 ∷ 42 ∷ 63 ∷ 34 ∷ 60 ∷ 62 ∷ 124 ∷ 0 ∷ []

unfoldable pub contains : List ℕ → ℕ → Bool
contains [] c = false
contains (d ∷ ds) c = d == c || contains ds c

unfoldable pub validate_tape_name : Text → Result (Unit {0})
unfolding contains all
validate_tape_name name = do
  refuse (is_empty name) (invalid_tape_name empty_name)
  refuse (ltb 255 (length name)) (invalid_tape_name name_too_long)
  ensure (all (λ c. not (contains invalid_chars c)) name) (invalid_tape_name bad_name_characters)
