-- ===== src/Tapes/Auto.antt =====
-- The names that a batch gives: `max_auto_tape_suffix_for_library` and `allocate_auto_tape_names` of
-- vtladm-rc/userspace/src/main.rs.
use vtladm.Prelude.{
  ℕ, Text, ◌+◌, ◌-◌, ◌%◌, ◌&&◌, not, List, [], ◌∷◌, ◌++◌, Option, none, some, ◌==◌, ltb, zero, suc,
  if◌then◌else◌, codes, length, all, decimal, is_digit, read_number, at_most,
}
use vtladm.Catalog.Tapes.{Tape}
use vtladm.Names.{sanitize_lib_dir_component}
use vtladm.Strings.{strip_prefix, is_empty}

unfoldable pub auto_tape_name_prefix : Text → Text
unfolding sanitize_lib_dir_component
auto_tape_name_prefix library = sanitize_lib_dir_component library ++ codes "_tape"

abbrev pub or_zero : Option ℕ → ℕ
or_zero none = 0
or_zero (some n) = n

-- `parse::<u64>()` of a text of digits.
abbrev pub parse_u64 : Text → Option ℕ
parse_u64 s = at_most 18446744073709551615 (read_number s)

-- The number of a name that is the prefix and digits; 0 for another name.
abbrev pub number_after : Option Text → ℕ
number_after none = 0
number_after (some rest) =
    if not (is_empty rest) && all is_digit rest then or_zero (parse_u64 rest) else 0

abbrev pub max : ℕ → ℕ → ℕ
max a b = if ltb a b then b else a

-- The loop of `max_auto_tape_suffix_for_library`, from `top` on.
unfoldable pub max_suffix : ℕ → Text → ℕ → List Tape → ℕ
unfolding strip_prefix all read_number
max_suffix lib prefix top [] = top
max_suffix lib prefix top (r ∷ rs) =
    max_suffix lib prefix
      (if r.library_id == lib then max top (number_after (strip_prefix prefix r.name)) else top) rs

unfoldable pub max_auto_tape_suffix_for_library : ℕ → Text → List Tape → ℕ
unfolding auto_tape_name_prefix max_suffix
max_auto_tape_suffix_for_library lib library tapes =
    max_suffix lib (auto_tape_name_prefix library) 0 tapes

unfoldable pub zeros : ℕ → Text → Text
zeros zero s = s
zeros (suc k) s = 48 ∷ zeros k s

-- `format!("{:0width$}", n)`.
unfoldable pub padded : ℕ → ℕ → Text
unfolding zeros decimal
padded width n = zeros (width - length (decimal n)) (decimal n)

-- The `k` names from the number `n` on.
unfoldable pub names_from : Text → ℕ → ℕ → ℕ → List Text
unfolding padded
names_from prefix width n zero = []
names_from prefix width n (suc k) = (prefix ++ padded width n) ∷ names_from prefix width (n + 1) k

-- `start + count - 1` of `u64`; the range is empty when that wraps around below `start`.
abbrev pub last_number : ℕ → ℕ → ℕ
last_number start count = (start + count - 1) % 18446744073709551616

unfoldable pub allocate_auto_tape_names : Text → ℕ → ℕ → List Text
unfolding auto_tape_name_prefix names_from decimal
allocate_auto_tape_names library start zero = []
allocate_auto_tape_names library start (suc n) =
    let end = last_number start (suc n) in
    names_from (auto_tape_name_prefix library) (max 2 (length (decimal end))) start
      (end + 1 - start)
