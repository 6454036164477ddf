-- ===== src/Tapes/Quota.antt =====
-- The quotas of a library: `check_quota` and `lib_config_get` of vtladm-rc/userspace/src/main.rs.
use vtladm.Prelude.{
  ℕ, Text, ◌+◌, ◌%◌, Bool, true, ◌&&◌, List, [], ◌∷◌, Option, none, some, ◌==◌, leb, ltb,
  if◌then◌else◌, text_eq, codes, ℤ, pos, negsuc, Dict, lookup, parse_i32,
}
use vtladm.Errors.{Result, ok, ◌>>=◌, ◌>>◌, refuse, quota_exceeded, total_size, tape_count}
use vtladm.Catalog.{Catalog, resolve_library_id}
use vtladm.Catalog.Tapes.{Tape}
use vtladm.Libraries.{Setting}

-- The tables `library_config` and `config`, and `parse_size`, which works on floating-point numbers.
pub record Quotas : Type 0 where
  pub library_config : List Setting
  pub config : Dict Text
  pub parse_size : Text → Result ℕ

unfoldable pub lib_config_get : ℕ → Text → List Setting → Option Text
lib_config_get lib key [] = none
lib_config_get lib key (r ∷ rs) =
    if r.library_id == lib && text_eq r.key key then some r.value else lib_config_get lib key rs

abbrev pub or_else : Option Text → Option Text → Option Text
or_else none b = b
or_else (some a) b = some a

-- The quota of the library, else that of all.
abbrev pub quota : Quotas → ℕ → Text → Option Text
quota q lib key = or_else (lib_config_get lib key q.library_config) (lookup key q.config)

-- `SELECT SUM(capacity_bytes)` and `SELECT COUNT(*)`, of the tapes of a library.
unfoldable pub sum_capacity : ℕ → List Tape → ℕ
sum_capacity lib [] = 0
sum_capacity lib (r ∷ rs) =
    let rest = sum_capacity lib rs in if r.library_id == lib then r.capacity_bytes + rest else rest

unfoldable pub count_in_library : ℕ → List Tape → ℕ
count_in_library lib [] = 0
count_in_library lib (r ∷ rs) =
    let rest = count_in_library lib rs in if r.library_id == lib then rest + 1 else rest

-- A sum that SQLite's integers cannot hold is an error, which `unwrap_or(0)` takes for 0; so is a
-- count that an `i32` cannot.
abbrev pub or_zero : ℕ → ℕ → ℕ
or_zero limit n = if ltb n limit then n else 0

abbrev pub current_total : ℕ → Catalog → ℕ
current_total lib db = or_zero 9223372036854775808 (sum_capacity lib db.tapes)

abbrev pub current_count : ℕ → Catalog → ℕ
current_count lib db = or_zero 2147483648 (count_in_library lib db.tapes)

-- The addition of two `u64`.
unfoldable pub check_total : Quotas → ℕ → ℕ → Catalog → Option Text → Result (Unit {0})
unfolding sum_capacity
check_total q lib size db none = ok tt
check_total q lib size db (some text) = q.parse_size text >>= λ top.
    refuse (ltb top ((current_total lib db + size) % 18446744073709551616))
      (quota_exceeded total_size)

abbrev pub reached : ℕ → ℤ → Bool
reached n (negsuc m) = true
reached n (pos m) = leb m n

abbrev pub parsed : Option Text → Option ℤ
parsed none = none
parsed (some s) = parse_i32 s

unfoldable pub check_count : ℕ → Catalog → Option ℤ → Result (Unit {0})
unfolding count_in_library
check_count lib db none = ok tt
check_count lib db (some top) =
    refuse (reached (current_count lib db) top) (quota_exceeded tape_count)

unfoldable pub check_quota : Quotas → Text → ℕ → Catalog → Result (Unit {0})
unfolding check_total check_count lib_config_get parse_i32 resolve_library_id lookup
check_quota q lib_name size db = do
  lib ← resolve_library_id db lib_name
  check_total q lib size db (quota q lib (codes "quota_max_total_size"))
  check_count lib db (parsed (quota q lib (codes "quota_max_tapes")))
