-- ===== src/Offline.antt =====
-- The offline storage of vtladm-rc/userspace/src/main.rs: a library of its own, with the tapes'
-- image files moved along. The state `K` of a world is everything outside the catalog, the disk and
-- the kernel.
pub mod Rows
pub mod Batch
pub mod Failure
pub mod Keeps
pub mod Whole
use vtladm.Prelude.{
  ℕ, Text, Bool, true, false, ◌&&◌, ◌||◌, not, List, [], ◌∷◌, ◌++◌, Option, none, some, ◌==◌,
  if◌then◌else◌, text_eq, codes,
}
use vtladm.Errors.{
  VtlError, Result, ok, err, refuse, ensure, ok_or, io_error, database_error, invalid_parameter,
  tape_not_found, tape_not_on_shelf, tape_in_drive as in_drive_error, name_used_here,
  target_path_exists, slot_inconsistent, slot_not_empty, already_in_slot, shelf_exists, empty_batch,
  duplicate_tape,
}
use vtladm.Errors
use vtladm.Catalog.{
  Catalog, offline_library_name, tape_in_drive, resolve_library_id, resolve_shelf_id,
}
use vtladm.Catalog.Bays.{is_some, bay_at, content, set_bay}
use vtladm.Catalog.Tapes.{Tape, find_named, find_tape, update_tape}
use vtladm.Robot.{clear_named_slot}
use vtladm.Names.{sanitize_lib_dir_component}
use vtladm.Shelves.{offline_rows, insert_shelf, check_shelf_name, kept, no_names, has_duplicate}
use vtladm.Changer.{IoResult, done, failed}
use vtladm.Changer.World.{World, M, ◌>>=◌, ◌>>◌, pure, lift, query, attempt, continue, transact}
use vtladm.Changer.Calls.{io_result}
use vtladm.Handlers.{row_of, with_unit}

-- The calls of the standard library on files.
pub record Files (K : Type 0) : Type 0 where
  pub exists : Text → K → Bool
  pub create_dir_all : Text → K → IoResult (Unit {0}) × K
  pub rename : Text → Text → K → IoResult (Unit {0}) × K

-- Another row of the library with the name or the barcode of `r`: UNIQUE(library_id, name) and
-- UNIQUE(library_id, barcode) refuse to move `r` there.
unfoldable pub clashes : ℕ → Tape → List Tape → Bool
clashes lib r [] = false
clashes lib r (x ∷ xs) =
    not (x.id == r.id)
      && x.library_id == lib
      && (text_eq x.name r.name || text_eq x.barcode r.barcode)
    || clashes lib r xs

abbrev pub offline_row : ℕ → ℕ → Text → Tape → Tape
offline_row lib shelf path r = record r {
  library_id = lib;
  shelf_id = some shelf;
  slot = none;
  image_path = path;
}

abbrev pub online_row : ℕ → ℕ → Text → Tape → Tape
online_row lib slot path r = record r {
  library_id = lib;
  shelf_id = none;
  slot = some slot;
  image_path = path;
}

-- The transaction of one move to the offline storage.
unfoldable pub store_rows : ℕ → ℕ → ℕ → Text → Tape → Catalog → Result Catalog
unfolding clashes clear_named_slot
store_rows from offline shelf path r db = do
  Errors.◌>>◌ (refuse (clashes offline r db.tapes) database_error) (
      ok (record db {
        slots = clear_named_slot from r.slot db.slots;
        tapes = update_tape r.id (offline_row offline shelf path) db.tapes;
      }))

-- The transaction of one move from the offline storage into a slot.
unfoldable pub fetch_rows : ℕ → ℕ → Text → Tape → Catalog → Result Catalog
unfolding clashes
fetch_rows online slot path r db = do
  Errors.◌>>◌ (refuse (clashes online r db.tapes) database_error) (
      ok (record db {
        tapes = update_tape r.id (online_row online slot path) db.tapes;
        slots = set_bay online slot (some r.id) db.slots;
      }))

unfoldable pub assert_data_slot_empty : Catalog → ℕ → ℕ → Result (Unit {0})
assert_data_slot_empty db lib slot =
    refuse (is_some (content (bay_at lib slot db.slots))) (invalid_parameter slot_not_empty)

-- The checks of one move to the offline storage, up to the paths: the tape's row.
unfoldable pub check_store : Catalog → ℕ → ℕ → Text → Result Tape
check_store db from offline name =
    Errors.◌>>=◌ (ok_or (find_named from name db.tapes) (tape_not_found name)) λ found.
      Errors.◌>>◌ (refuse (tape_in_drive db from found.id) in_drive_error) (
        Errors.◌>>◌
          (refuse (is_some (find_named offline name db.tapes)) (invalid_parameter name_used_here))
          (row_of found.id db))

-- The checks of one move from the offline storage, up to the paths: the tape's row.
unfoldable pub check_fetch : Catalog → ℕ → ℕ → Text → ℕ → Result Tape
unfolding assert_data_slot_empty
check_fetch db online offline name slot =
    Errors.◌>>=◌ (ok_or (find_named offline name db.tapes) (tape_not_found name)) λ r.
      Errors.◌>>◌ (refuse (tape_in_drive db offline r.id) in_drive_error) (
        Errors.◌>>◌ (refuse (is_some r.slot) (invalid_parameter slot_inconsistent)) (
          Errors.◌>>◌ (ensure (is_some r.shelf_id) tape_not_on_shelf) (
            Errors.◌>>◌
              (refuse (is_some (find_named online name db.tapes))
                (invalid_parameter name_used_here))
              (Errors.◌>>◌ (assert_data_slot_empty db online slot) (ok r)))))

module _ {K : Type 0} where
  abbrev pub on_disk : (K → IoResult (Unit {0}) × K) → M K (Unit {0})
  on_disk call w = (io_result (call w.kernel).0, record w { kernel = (call w.kernel).1 })

  abbrev pub look : (K → Bool) → M K Bool
  look test w = (ok (test w.kernel), w)

  -- A change of the catalog without a transaction.
  abbrev pub in_catalog : {A : Type 0} → (Catalog → Result A × Catalog) → M K A
  in_catalog f w = ((f w.db).0, record w { db = (f w.db).1 })

  abbrev pub undone : M K (Unit {0}) → Result (Unit {0}) → M K (Unit {0})
  undone undo (ok u) = pure tt
  undone undo (err e) = attempt undo >>= λ _. lift (err e)

  -- What was done to the disk is undone when the transaction fails; a failure of that is logged.
  abbrev pub or_undo : M K (Unit {0}) → M K (Unit {0}) → M K (Unit {0})
  or_undo m undo = attempt m >>= undone undo

module _ {K : Type 0} (fs : Files K) (tape_dir : Text) where
  abbrev pub library_dir : Text → Text
  library_dir library = tape_dir ++ 47 ∷ sanitize_lib_dir_component library

  unfoldable pub tape_image_path : Text → Text → Text
  tape_image_path library name = library_dir library ++ 47 ∷ (name ++ codes ".vtltape")

  unfoldable pub ensure_offline_library : M K ℕ
  unfolding offline_rows
  ensure_offline_library = do
    lib ← in_catalog offline_rows
    on_disk (fs.create_dir_all (library_dir offline_library_name))
    pure lib

  unfoldable pub create_offline_shelf : Text → M K (Unit {0})
  unfolding ensure_offline_library insert_shelf
  create_offline_shelf name = do
    lift (check_shelf_name name)
    lib ← ensure_offline_library
    in_catalog (λ db. kept (invalid_parameter shelf_exists) db (insert_shelf lib name false db))

  -- The image file goes from its old path to a new one that is free.
  abbrev pub make_way : Text → Text → Text → M K (Unit {0})
  make_way library old path =
      on_disk (fs.create_dir_all (library_dir library)) >> on_disk (fs.rename old path)

  abbrev pub unless_there : Text → Text → Text → Bool → M K (Unit {0})
  unless_there library old path there =
      lift (refuse there (invalid_parameter target_path_exists)) >> make_way library old path

  abbrev pub relocate : Text → Text → Text → M K (Unit {0})
  relocate library old path = look (fs.exists path) >>= unless_there library old path

  abbrev pub rename_back : Text → Text → M K (Unit {0})
  rename_back path old = on_disk (fs.rename path old)

  -- The file of a tape that passed the checks is moved, then its row.
  unfoldable pub stored : ℕ → ℕ → ℕ → Text → Tape → M K (Unit {0})
  unfolding tape_image_path store_rows
  stored from offline shelf name r =
      relocate offline_library_name r.image_path (tape_image_path offline_library_name name)
      >> or_undo
          (transact (λ db.
            with_unit
              (store_rows from offline shelf (tape_image_path offline_library_name name) r db)))
          (rename_back (tape_image_path offline_library_name name) r.image_path)

  unfoldable pub fetched : Text → ℕ → Text → ℕ → Tape → M K (Unit {0})
  unfolding tape_image_path fetch_rows
  fetched library online name slot r =
      relocate library r.image_path (tape_image_path library name)
      >> or_undo
          (transact (λ db. with_unit (fetch_rows online slot (tape_image_path library name) r db)))
          (rename_back (tape_image_path library name) r.image_path)

  -- One tape of the loop of `move_tapes_to_offline_shelf`.
  unfoldable pub store_one : ℕ → ℕ → ℕ → Text → M K (Unit {0})
  unfolding stored check_store
  store_one from offline shelf name =
      query (λ db. check_store db from offline name) >>= stored from offline shelf name

  unfoldable pub store_each : ℕ → ℕ → ℕ → List Text → M K (Unit {0})
  unfolding store_one
  store_each from offline shelf [] = pure tt
  store_each from offline shelf (name ∷ names) =
      store_one from offline shelf name >> store_each from offline shelf names

  unfoldable pub move_tapes_to_offline_shelf : Text → List Text → Text → M K (Unit {0})
  unfolding store_each ensure_offline_library
  move_tapes_to_offline_shelf library names shelf_name = do
    lift (refuse (no_names names) (invalid_parameter empty_batch))
    lift (refuse (has_duplicate names) (invalid_parameter duplicate_tape))
    from ← query (λ db. resolve_library_id db library)
    offline ← ensure_offline_library
    shelf ← query (λ db. resolve_shelf_id db offline shelf_name)
    store_each from offline shelf names

  unfoldable pub import_offline_tape_to_online_slot : Text → ℕ → ℕ → Text → ℕ → M K (Unit {0})
  unfolding fetched check_fetch
  import_offline_tape_to_online_slot library online offline name slot =
      query (λ db. check_fetch db online offline name slot) >>= fetched library online name slot
