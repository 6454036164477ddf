-- ===== src/Catalog.antt =====
-- The SQLite catalog of vtladm-rc/userspace/src/main.rs: the tables of `create_fresh_v2_schema` as
-- lists of rows, in the order in which they were inserted, and the queries that the operations
-- share.
pub mod Bays
pub mod Tapes
pub mod Agreement
use vtladm.Prelude.{
  ℕ, Text, Bool, false, ◌||◌, ◌&&◌, not, List, [], ◌∷◌, Option, none, some, ◌==◌, if◌then◌else◌,
  text_eq, codes,
}
use vtladm.Errors.{Result, ok_or, library_not_found, shelf_not_found}
use Bays.{Bay, any_holds}
use Tapes.{Tape}

pub record Library : Type 0 where
  pub id : ℕ
  pub name : Text

pub record Shelf : Type 0 where
  pub id : ℕ
  pub library_id : ℕ
  pub name : Text
  pub is_default_unused : Bool

-- `slots` and `drives` are tables of bays; a slot carries `is_import_export`. The counters are
-- those of AUTOINCREMENT.
pub record Catalog : Type 0 where
  pub libraries : List Library
  pub shelves : List Shelf
  pub tapes : List Tape
  pub slots : List (Bay Bool)
  pub drives : List (Bay (Unit {0}))
  pub next_library : ℕ
  pub next_shelf : ℕ
  pub next_tape : ℕ

-- `LEGACY_DEFAULT_LIBRARY_NAME`, `OFFLINE_LIBRARY_NAME` and `DEFAULT_UNUSED_SHELF_NAME`.
abbrev pub legacy_default_library_name : Text
legacy_default_library_name = codes "default"

abbrev pub offline_library_name : Text
offline_library_name = codes "__offline__"

abbrev pub default_unused_shelf_name : Text
default_unused_shelf_name = codes "unused"

unfoldable pub is_test_only_library_name : Text → Bool
is_test_only_library_name name = text_eq name legacy_default_library_name

-- Also the `WHERE name NOT IN (offline, default)` of the queries on `vtl_libraries`.
unfoldable pub is_kernel_exported_library_name : Text → Bool
unfolding is_test_only_library_name
is_kernel_exported_library_name name =
    not (is_test_only_library_name name) && not (text_eq name offline_library_name)

unfoldable pub find_library : Text → List Library → Option ℕ
find_library name [] = none
find_library name (l ∷ ls) = if text_eq l.name name then some l.id else find_library name ls

-- A row of `vtl_libraries` has the id.
unfoldable pub has_id : ℕ → List Library → Bool
has_id lib [] = false
has_id lib (l ∷ ls) = l.id == lib || has_id lib ls

unfoldable pub resolve_library_id : Catalog → Text → Result ℕ
unfolding find_library
resolve_library_id db name = ok_or (find_library name db.libraries) (library_not_found name)

unfoldable pub find_shelf : ℕ → Text → List Shelf → Option ℕ
find_shelf lib name [] = none
find_shelf lib name (s ∷ ss) =
    if s.library_id == lib && text_eq s.name name then some s.id else find_shelf lib name ss

unfoldable pub resolve_shelf_id : Catalog → ℕ → Text → Result ℕ
unfolding find_shelf
resolve_shelf_id db lib name = ok_or (find_shelf lib name db.shelves) (shelf_not_found name)

unfoldable pub find_default_shelf : ℕ → List Shelf → Option ℕ
find_default_shelf lib [] = none
find_default_shelf lib (s ∷ ss) =
    if s.library_id == lib && s.is_default_unused then some s.id else find_default_shelf lib ss

-- The code's error names the library id; the model's names the shelf.
unfoldable pub default_shelf_id : Catalog → ℕ → Result ℕ
unfolding find_default_shelf
default_shelf_id db lib =
    ok_or (find_default_shelf lib db.shelves) (shelf_not_found default_unused_shelf_name)

-- `SELECT COUNT(*) FROM drives WHERE library_id = lib AND tape_id = t`, and `n > 0`.
unfoldable pub tape_in_drive : Catalog → ℕ → ℕ → Bool
unfolding any_holds
tape_in_drive db lib t = any_holds lib t db.drives
