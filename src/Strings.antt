-- ===== src/Strings.antt =====
-- Operations of Rust's `str` that vtladm-rc/userspace/src uses, on texts of ASCII bytes.
pub mod Plain
use vtladm.Prelude.{
  ℕ, Text, Bool, true, false, ◌&&◌, ◌||◌, not, List, [], ◌∷◌, ◌++◌, Option, none, some, ◌==◌,
  if◌then◌else◌,
}
use vtladm.Settings.{is_space}

-- `s.split(c)`: at least one piece.
abbrev pub onto_first : ℕ → List Text → List Text
onto_first c [] = (c ∷ []) ∷ []
onto_first c (p ∷ ps) = (c ∷ p) ∷ ps

unfoldable pub split : ℕ → Text → List Text
split sep [] = [] ∷ []
split sep (c ∷ s) = let rest = split sep s in if c == sep then [] ∷ rest else onto_first c rest

-- `s.split_once(c)`.
abbrev pub onto_left : ℕ → Option (Text × Text) → Option (Text × Text)
onto_left c none = none
onto_left c (some (a, b)) = some (c ∷ a, b)

unfoldable pub split_once : ℕ → Text → Option (Text × Text)
split_once sep [] = none
split_once sep (c ∷ s) =
    let rest = split_once sep s in if c == sep then some ([], s) else onto_left c rest

-- `parts.join(sep)`.
unfoldable pub join : Text → List Text → Text
join sep [] = []
join sep (p ∷ []) = p
join sep (p ∷ q ∷ ps) = p ++ (sep ++ join sep (q ∷ ps))

abbrev pub is_empty : Text → Bool
is_empty [] = true
is_empty (c ∷ s) = false

unfoldable pub filter_nonempty : List Text → List Text
filter_nonempty [] = []
filter_nonempty (p ∷ ps) = if is_empty p then filter_nonempty ps else p ∷ filter_nonempty ps

-- Pieces between white space.
unfoldable pub pieces : Text → List Text
pieces [] = [] ∷ []
pieces (c ∷ s) = let rest = pieces s in if is_space c then [] ∷ rest else onto_first c rest

unfoldable pub split_whitespace : Text → List Text
unfolding pieces filter_nonempty
split_whitespace s = filter_nonempty (pieces s)

-- `lines()`: pieces that a line feed ends, without a carriage return before it.
unfoldable pub strip_cr : Text → Text
strip_cr [] = []
strip_cr (c ∷ []) = if c == 13 then [] else c ∷ []
strip_cr (c ∷ d ∷ s) = c ∷ strip_cr (d ∷ s)

unfoldable pub all_lines : List Text → List Text
unfolding strip_cr
all_lines [] = []
all_lines (p ∷ []) = if is_empty p then [] else strip_cr p ∷ []
all_lines (p ∷ q ∷ ps) = strip_cr p ∷ all_lines (q ∷ ps)

unfoldable pub lines : Text → List Text
unfolding split all_lines
lines s = all_lines (split 10 s)

-- `strip_prefix`, `starts_with`.
unfoldable pub strip_prefix : Text → Text → Option Text
strip_prefix [] s = some s
strip_prefix (c ∷ p) [] = none
strip_prefix (c ∷ p) (d ∷ s) = let rest = strip_prefix p s in if c == d then rest else none

abbrev pub is_some : {A : Type 0} → Option A → Bool
is_some none = false
is_some (some a) = true

unfoldable pub starts_with : Text → Text → Bool
unfolding strip_prefix
starts_with s p = is_some (strip_prefix p s)

-- `s.contains(p)`.
unfoldable pub contains : Text → Text → Bool
unfolding starts_with
contains [] p = is_empty p
contains (c ∷ s) p = starts_with (c ∷ s) p || contains s p
