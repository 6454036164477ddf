-- ===== src/Libraries.antt =====
-- Making and deleting a library: `create_named_library` and `delete_named_library` of
-- vtladm-rc/userspace/src/main.rs. Printing and logging are left out.
pub mod Rows
pub mod Create
pub mod Geometry
pub mod Delete
pub mod Online
pub mod Whole
pub mod Keeps
use vtladm.Prelude.{
  ℕ, Text, ◌+◌, Bool, true, false, ◌||◌, ◌&&◌, not, List, [], ◌∷◌, ◌++◌, Option, none, some, ◌==◌,
  leb, ltb, zero, suc, if◌then◌else◌, text_eq, codes, length, keep, ℤ, pos, negsuc, decimal,
}
use vtladm.Errors.{
  VtlError, Reason, Result, ok, err, ◌>>=◌, ◌>>◌, refuse, ok_or, invalid_parameter, reserved_name,
  drives_out_of_range, slots_out_of_range, too_many_libraries, last_online_library, empty_name,
  library_exists, database_error, io_error, Result-cases,
}
use vtladm.Catalog.{
  Catalog, Library, Shelf, resolve_library_id, find_library, offline_library_name,
  legacy_default_library_name, default_unused_shelf_name, is_kernel_exported_library_name,
}
use vtladm.Catalog.Bays.{Bay, bay_at, clear_library, is_some}
use vtladm.Catalog.Tapes.{Tape}
use vtladm.Names.{validate_library_name, is_empty, sanitize_lib_dir_component}
use vtladm.Shelves.{insert_shelf, library_row}
use vtladm.Elements.{mailslot_offset}
use vtladm.Geometry.{
  count_exported_online_libraries, max_online_libraries, max_drives_per_lib, max_data_slots_per_lib,
}

-- A row of `library_config` and a row of `tape_tags`.
pub record Setting : Type 0 where
  pub library_id : ℕ
  pub key : Text
  pub value : Text

pub record TapeTag : Type 0 where
  pub tape_id : ℕ
  pub tag_id : ℕ

-- The tables that the two operations write.
pub record Tables : Type 0 where
  pub db : Catalog
  pub config : List Setting
  pub tape_tags : List TapeTag

-- `drives < 1 || drives > max` of an `i32`.
abbrev pub in_range : ℕ → Reason → ℤ → Result ℕ
in_range max why (negsuc n) = err (invalid_parameter why)
in_range max why (pos n) = if ltb n 1 || ltb max n then err (invalid_parameter why) else ok n

-- The checks before the catalog is opened.
unfoldable pub check_new_library : Text → ℤ → ℤ → Result (ℕ × ℕ)
unfolding validate_library_name
check_new_library name drives slots = do
  refuse (is_empty name) (invalid_parameter empty_name)
  validate_library_name name
  refuse (text_eq name offline_library_name) (invalid_parameter reserved_name)
  refuse (text_eq name legacy_default_library_name) (invalid_parameter reserved_name)
  d ← in_range max_drives_per_lib drives_out_of_range drives
  s ← in_range max_data_slots_per_lib slots_out_of_range slots
  ok (d, s)

-- `SELECT COUNT(*) FROM slots WHERE library_id = lib`.
unfoldable pub count_slots : ℕ → Catalog → ℕ
unfolding keep
count_slots lib db = length (keep (λ b. b.library_id == lib) db.slots)

-- A library that has slots is not made again; one without is filled up.
abbrev pub check_no_slots : Text → Option ℕ → Catalog → Result (Unit {0})
check_no_slots name none db = ok tt
check_no_slots name (some lib) db = refuse (ltb 0 (count_slots lib db)) (library_exists name)

abbrev pub as_database_error : {A : Type 0} → Result A → Result A
as_database_error (ok a) = ok a
as_database_error (err e) = err database_error

-- The id, and the catalog with the row and the default shelf.
abbrev pub with_shelf : ℕ × Catalog → Result (ℕ × Catalog)
with_shelf (lib, db) =
    as_database_error (insert_shelf lib default_unused_shelf_name true db) >>= λ after.
    ok (lib, after)

abbrev pub library_made : Text → Option ℕ → Catalog → Result (ℕ × Catalog)
library_made name (some lib) db = ok (lib, db)
library_made name none db = do
  refuse (leb max_online_libraries (count_exported_online_libraries db))
      (invalid_parameter too_many_libraries)
  with_shelf (library_row name none db)

-- `INSERT OR REPLACE INTO library_config`: the key is (library_id, key).
abbrev pub other_setting : ℕ → Text → Setting → Bool
other_setting lib key r = not (r.library_id == lib && text_eq r.key key)

abbrev pub set_config : ℕ → Text → Text → List Setting → List Setting
set_config lib key value rows =
    keep (other_setting lib key) rows ++ record { library_id = lib; key = key; value = value } ∷ []

-- `INSERT OR IGNORE`: a row with the key is left alone.
unfoldable pub insert_bay : {A : Type 0} → ℕ → ℕ → A → List (Bay A) → List (Bay A)
unfolding bay_at
insert_bay lib n a bs =
    if is_some (bay_at lib n bs)
    then bs
    else bs ++ record { library_id = lib; number = n; tape_id = none; column = a } ∷ []

-- The loop `for i in 0..n`, from `i` on, with the numbers moved up by `start`.
unfoldable pub insert_bays : {A : Type 0} → ℕ → ℕ → ℕ → A → List (Bay A) → List (Bay A)
unfolding insert_bay
insert_bays lib start zero a bs = bs
insert_bays lib start (suc n) a bs = insert_bays lib (start + 1) n a (insert_bay lib start a bs)

abbrev pub with_bays : ℕ → ℕ → ℕ → Catalog → Catalog
with_bays lib d s db = record db {
  drives = insert_bays lib 0 d tt db.drives;
  slots = insert_bays lib mailslot_offset 4 true (insert_bays lib 0 s false db.slots);
}

-- The transaction.
unfoldable pub create_rows : Text → ℕ → ℕ → Tables → Result Tables
unfolding insert_bays keep decimal find_library insert_shelf count_exported_online_libraries
    count_slots
create_rows name d s tables = do
  check_no_slots name (find_library name tables.db.libraries) tables.db
  (lib, db) ← library_made name (find_library name tables.db.libraries) tables.db
  ok (record {
    db = with_bays lib d s db;
    config =
        set_config lib (codes "slots") (decimal s)
          (set_config lib (codes "max_drives") (decimal d) tables.config);
    tape_tags = tables.tape_tags;
  })

-- `WHERE library_id <> lib`: the rows that a deletion leaves.
abbrev pub bay_of_other : {A : Type 0} → ℕ → Bay A → Bool
bay_of_other lib b = not (b.library_id == lib)

abbrev pub tape_of_other : ℕ → Tape → Bool
tape_of_other lib r = not (r.library_id == lib)

abbrev pub shelf_of_other : ℕ → Shelf → Bool
shelf_of_other lib r = not (r.library_id == lib)

abbrev pub setting_of_other : ℕ → Setting → Bool
setting_of_other lib r = not (r.library_id == lib)

abbrev pub other_library : ℕ → Library → Bool
other_library lib r = not (r.id == lib)

-- `tape_id IN (SELECT id FROM tapes WHERE library_id = lib)`.
unfoldable pub is_tape_of : ℕ → ℕ → List Tape → Bool
is_tape_of lib t [] = false
is_tape_of lib t (r ∷ rs) = r.library_id == lib && r.id == t || is_tape_of lib t rs

abbrev pub tag_stays : ℕ → List Tape → TapeTag → Bool
tag_stays lib tapes row = not (is_tape_of lib row.tape_id tapes)

abbrev pub count_tapes : ℕ → Catalog → ℕ
count_tapes lib db = length (keep (λ r. r.library_id == lib) db.tapes)

unfoldable pub check_deletable : Text → Catalog → Result ℕ
unfolding keep count_exported_online_libraries resolve_library_id
check_deletable name db = do
  refuse (text_eq name offline_library_name) (invalid_parameter reserved_name)
  lib ← resolve_library_id db name
  refuse
      (leb (count_exported_online_libraries db) 1
        && not (text_eq name legacy_default_library_name && (count_tapes lib db == 0)))
      (invalid_parameter last_online_library)
  ok lib

-- The statements of the transaction, in their order.
unfoldable pub without_library : ℕ → Tables → Tables
unfolding keep clear_library is_tape_of
without_library lib tables = record {
  db = record tables.db {
    libraries = keep (other_library lib) tables.db.libraries;
    shelves = keep (shelf_of_other lib) tables.db.shelves;
    tapes = keep (tape_of_other lib) tables.db.tapes;
    slots = keep (bay_of_other lib) (clear_library lib tables.db.slots);
    drives = keep (bay_of_other lib) (clear_library lib tables.db.drives);
  };
  config = keep (setting_of_other lib) tables.config;
  tape_tags = keep (tag_stays lib tables.db.tapes) tables.tape_tags;
}

unfoldable pub delete_rows : Text → Tables → Result Tables
unfolding check_deletable without_library
delete_rows name tables = do lib ← check_deletable name tables.db; ok (without_library lib tables)
