-- ===== src/Names/Checked.antt =====
-- What the checks of a name promise.
use vtladm.Prelude.{
  Text, true, false, ◌≡◌, ◌≤◌, ◌↔◌, refl, arith, [], ◌∷◌, length, all, text_eq_refl,
}
use vtladm.Errors.{ok}
use vtladm.Names.{is_plain, sanitize_lib_dir_component, validate_library_name, is_empty}

sanitize_of_plain : (s : Text) → all is_plain s ≡ true → sanitize_lib_dir_component s ≡ s
unfolding sanitize_lib_dir_component all
sanitize_of_plain [] h = refl
sanitize_of_plain (c ∷ s) h = ground (arith, sanitize_of_plain s)

underscore-plain : is_plain 95 ≡ true
unfolding is_plain
underscore-plain = refl

-- A directory name is made of plain characters, whatever the library is called: no path separator
-- and no dot is left.
pub sanitize-is_plain : (s : Text) → all is_plain (sanitize_lib_dir_component s) ≡ true
unfolding sanitize_lib_dir_component all
sanitize-is_plain [] = refl
sanitize-is_plain (c ∷ s) = ground (arith, underscore-plain, sanitize-is_plain s)

-- A library name is accepted exactly when it has 1 to 64 bytes, all of them plain.
pub validate_library_name_iff :
    (name : Text)
    → (validate_library_name name ≡ ok tt)
      ↔ ((is_empty name ≡ false) × (length name ≤ 64) × (all is_plain name ≡ true))
unfolding validate_library_name
validate_library_name_iff name =
    (λ h. ground arith, λ h. ground (arith, sanitize_of_plain name, text_eq_refl name))

-- Two accepted libraries with one directory are one library.
pub sanitize_injective :
    (a b : Text)
    → validate_library_name a ≡ ok tt
    → validate_library_name b ≡ ok tt
    → sanitize_lib_dir_component a ≡ sanitize_lib_dir_component b
    → a ≡ b
sanitize_injective a b ha hb e = cc (
  e,
  sanitize_of_plain a ((validate_library_name_iff a).0 ha).2,
  sanitize_of_plain b ((validate_library_name_iff b).0 hb).2,
)
