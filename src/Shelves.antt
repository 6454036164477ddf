-- ===== src/Shelves.antt =====
-- The shelves of vtladm-rc/userspace/src/main.rs: making and deleting them, and moving tapes from
-- one to another. Printing is left out.
pub mod Rows
pub mod Migrate
use vtladm.Prelude.{
  ℕ, Text, Bool, true, false, ◌||◌, ◌&&◌, not, List, [], ◌∷◌, ◌++◌, ◌+◌, Option, none, some, ◌==◌,
  if◌then◌else◌, text_eq,
}
use vtladm.Errors.{
  database_error, VtlError, Result, ok, err, ◌>>=◌, ◌>>◌, ensure, refuse, ok_or, invalid_parameter,
  empty_name, reserved_name, shelf_exists, shelf_not_found, default_shelf, shelf_in_use,
  empty_batch, same_shelf, duplicate_tape, not_on_source_shelf, already_in_slot, tape_not_found,
  tape_in_drive as in_drive_error,
}
use vtladm.Catalog.{
  Catalog, Library, Shelf, resolve_library_id, resolve_shelf_id, default_unused_shelf_name,
  offline_library_name, tape_in_drive, find_library,
}
use vtladm.Catalog.Bays.{is_some}
use vtladm.Catalog.Tapes.{Tape, find_named, update_tape}
use vtladm.Names.{is_empty, sanitize_lib_dir_component}

-- The row with a key of UNIQUE(library_id, name).
unfoldable pub shelf_row : ℕ → Text → List Shelf → Option Shelf
shelf_row lib name [] = none
shelf_row lib name (s ∷ ss) =
    if s.library_id == lib && text_eq s.name name then some s else shelf_row lib name ss

-- `INSERT INTO shelves`: the constraint refuses a name that the library has.
unfoldable pub insert_shelf : ℕ → Text → Bool → Catalog → Result Catalog
unfolding shelf_row
insert_shelf lib name default db = do
  refuse (is_some (shelf_row lib name db.shelves)) (invalid_parameter shelf_exists)
  ok (record db {
    shelves =
        db.shelves
        ++ record { id = db.next_shelf; library_id = lib; name = name; is_default_unused = default }
          ∷ [];
    next_shelf = db.next_shelf + 1;
  })

abbrev pub check_shelf_name : Text → Result (Unit {0})
check_shelf_name name = do
  refuse (is_empty name) (invalid_parameter empty_name)
  refuse (text_eq name default_unused_shelf_name) (invalid_parameter reserved_name)

unfoldable pub create_shelf : Text → Text → Catalog → Result Catalog
unfolding insert_shelf
create_shelf library name db = do
  check_shelf_name name
  lib ← resolve_library_id db library
  insert_shelf lib name false db

-- What the library has after its row was looked for, and inserted if it was not there.
abbrev pub library_row : Text → Option ℕ → Catalog → ℕ × Catalog
library_row name (some lib) db = (lib, db)
library_row name none db = (
  db.next_library,
  record db {
    libraries = db.libraries ++ record { id = db.next_library; name = name } ∷ [];
    next_library = db.next_library + 1;
  },
)

-- `SELECT COUNT(*) FROM shelves WHERE library_id = lib AND is_default_unused = 1`, and `n > 0`.
unfoldable pub has_default : ℕ → List Shelf → Bool
has_default lib [] = false
has_default lib (s ∷ ss) = s.library_id == lib && s.is_default_unused || has_default lib ss

-- The shelf's insertion may be refused: the library stays all the same, there is no transaction.
abbrev pub kept : VtlError → Catalog → Result Catalog → Result (Unit {0}) × Catalog
kept e db (ok after) = (ok tt, after)
kept e db (err _) = (err e, db)

abbrev pub default_made : ℕ → Catalog → Result (Unit {0}) × Catalog
default_made lib db =
    if has_default lib db.shelves
    then (ok tt, db)
    else kept database_error db (insert_shelf lib default_unused_shelf_name true db)

abbrev pub with_id : ℕ → Result (Unit {0}) × Catalog → Result ℕ × Catalog
with_id lib (ok u, db) = (ok lib, db)
with_id lib (err e, db) = (err e, db)

abbrev pub offline_from : ℕ × Catalog → Result ℕ × Catalog
offline_from (lib, db) = with_id lib (default_made lib db)

-- The rows that `ensure_offline_library` looks for and inserts. The tables are there already:
-- `ensure_vtl_core_tables` finds nothing to make.
unfoldable pub offline_rows : Catalog → Result ℕ × Catalog
unfolding has_default insert_shelf
offline_rows db =
    offline_from
      (library_row offline_library_name (find_library offline_library_name db.libraries) db)

-- `SELECT COUNT(*) FROM tapes WHERE shelf_id = s`, and `n > 0`.
abbrev stands_on : ℕ → Option ℕ → Bool
stands_on s none = false
stands_on s (some x) = x == s

unfoldable pub any_on : ℕ → List Tape → Bool
any_on s [] = false
any_on s (r ∷ rs) = stands_on s r.shelf_id || any_on s rs

-- `DELETE FROM shelves WHERE id = s AND library_id = lib`.
unfoldable pub delete_rows : ℕ → ℕ → List Shelf → List Shelf
delete_rows lib s [] = []
delete_rows lib s (r ∷ rs) =
    if r.id == s && r.library_id == lib then delete_rows lib s rs else r ∷ delete_rows lib s rs

unfoldable pub delete_shelf_in_library : Text → Text → Catalog → Result Catalog
unfolding shelf_row any_on delete_rows
delete_shelf_in_library library name db = do
  lib ← resolve_library_id db library
  s ← ok_or (shelf_row lib name db.shelves) (shelf_not_found name)
  refuse s.is_default_unused (invalid_parameter default_shelf)
  refuse (any_on s.id db.tapes) (invalid_parameter shelf_in_use)
  ok (record db { shelves = delete_rows lib s.id db.shelves })

-- Whether a name comes twice.
unfoldable pub is_in : Text → List Text → Bool
is_in name [] = false
is_in name (n ∷ names) = text_eq n name || is_in name names

unfoldable pub has_duplicate : List Text → Bool
unfolding is_in
has_duplicate [] = false
has_duplicate (n ∷ names) = is_in n names || has_duplicate names

abbrev pub to_shelf : ℕ → Tape → Tape
to_shelf s r = record r { shelf_id = some s }

abbrev on : ℕ → Option ℕ → Bool
on s none = false
on s (some x) = x == s

-- One tape of the loop.
unfoldable pub migrate_one : ℕ → ℕ → ℕ → Text → Catalog → Result Catalog
migrate_one lib from to name db = do
  r ← ok_or (find_named lib name db.tapes) (tape_not_found name)
  ensure (on from r.shelf_id) (invalid_parameter not_on_source_shelf)
  refuse (is_some r.slot) (invalid_parameter already_in_slot)
  refuse (tape_in_drive db lib r.id) in_drive_error
  ok (record db { tapes = update_tape r.id (to_shelf to) db.tapes })

unfoldable pub migrate_all : ℕ → ℕ → ℕ → List Text → Catalog → Result Catalog
unfolding migrate_one
migrate_all lib from to [] db = ok db
migrate_all lib from to (name ∷ names) db =
    migrate_one lib from to name db >>= migrate_all lib from to names

abbrev pub no_names : List Text → Bool
no_names [] = true
no_names (n ∷ names) = false

unfoldable pub migrate_tapes_between_shelves :
    Text → Text → Text → List Text → Catalog → Result Catalog
unfolding has_duplicate migrate_all
migrate_tapes_between_shelves library from_shelf to_shelf_name names db = do
  refuse (no_names names) (invalid_parameter empty_batch)
  refuse (text_eq from_shelf to_shelf_name) (invalid_parameter same_shelf)
  refuse (has_duplicate names) (invalid_parameter duplicate_tape)
  lib ← resolve_library_id db library
  from ← resolve_shelf_id db lib from_shelf
  to ← resolve_shelf_id db lib to_shelf_name
  migrate_all lib from to names db
