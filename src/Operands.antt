-- ===== src/Operands.antt =====
-- The operands of the robot commands: `parse_slot` and `parse_drive` of
-- vtladm-rc/userspace/src/main.rs. The code lowers by Unicode, which on ASCII bytes is what is done
-- here. A trimmed text with other bytes is refused whichever way it is lowered: the Kelvin sign,
-- which becomes a k, and the dotted I, which becomes an i with a mark, make none of the words.
pub mod Read
use vtladm.Prelude.{
  ℕ, Text, ◌+◌, ◌-◌, Bool, true, false, List, [], ◌∷◌, Option, none, some, leb, zero, suc, length,
  if◌then◌else◌, codes, ℤ, pos, negsuc, parse_i32,
}
use vtladm.Settings.{trim, to_ascii_lowercase}
use vtladm.Strings.{strip_prefix, starts_with}

abbrev pub max_slots : ℕ
max_slots = 1000

abbrev pub max_drives : ℕ
max_drives = 100

-- `s.trim_start_matches(p)`: the prefix is taken off as often as it stands there. The fuel is the
-- number of bytes, since each round but the last takes one or more.
unfoldable pub strip_all : ℕ → Text → Text → Text
unfolding strip_prefix
strip_all zero p s = s
strip_all (suc f) p s = elim (strip_prefix p s) [ none ↦ s | some rest ↦ strip_all f p rest ]

abbrev pub trim_start_matches : Text → Text → Text
trim_start_matches p s = strip_all (length s) p s

-- `value < 0 || value > max`.
abbrev pub within : ℕ → Option ℤ → Option ℕ
within max none = none
within max (some (negsuc n)) = none
within max (some (pos n)) = if leb n max then some n else none

-- `MAILSLOT_OFFSET + num` of two `i32`, which wraps around.
abbrev pub plus_offset : ℤ → ℤ
plus_offset (pos n) =
    if leb (100 + n) 2147483647 then pos (100 + n) else negsuc (4294967295 - (100 + n))
plus_offset (negsuc n) = if leb (n + 1) 100 then pos (100 - (n + 1)) else negsuc (n - 100)

abbrev pub mail : Option ℤ → Option ℤ
mail none = none
mail (some n) = some (plus_offset n)

abbrev pub as_i32 : Option ℕ → Option ℤ
as_i32 none = none
as_i32 (some n) = some (pos n)

-- A mail slot returns early, before the test of the range.
abbrev pub slot_of : Text → Option ℤ
slot_of s =
    if starts_with s (codes "slot")
    then as_i32 (within max_slots (parse_i32 (trim_start_matches (codes "slot") s)))
    else if starts_with s (codes "mail")
    then mail (parse_i32 (trim_start_matches (codes "mail") s))
    else as_i32 (within max_slots (parse_i32 s))

unfoldable pub parse_slot : Text → Option ℤ
unfolding trim to_ascii_lowercase starts_with strip_all parse_i32
parse_slot slot_str = slot_of (to_ascii_lowercase (trim slot_str))

abbrev pub drive_of : Text → Option ℕ
drive_of s =
    if starts_with s (codes "drive")
    then within max_drives (parse_i32 (trim_start_matches (codes "drive") s))
    else within max_drives (parse_i32 s)

unfoldable pub parse_drive : Text → Option ℕ
unfolding trim to_ascii_lowercase starts_with strip_all parse_i32
parse_drive drive_str = drive_of (to_ascii_lowercase (trim drive_str))
