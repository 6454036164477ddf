-- ===== src/Media.antt =====
-- Deleting a tape and making it blank: `delete_tape_in_library` and `init_tape_in_library` of
-- vtladm-rc/userspace/src/main.rs. The tags of a deleted tape are left out.
pub mod Delete
pub mod Blank
use vtladm.Prelude.{
  ℕ, Text, Bool, true, false, ◌&&◌, List, [], ◌∷◌, Option, none, some, ◌==◌, if◌then◌else◌,
}
use vtladm.Errors.{
  VtlError, Result, ok, err, refuse, ensure, ok_or, tape_not_found, tape_not_on_shelf,
  tape_in_drive as in_drive_error,
}
use vtladm.Errors
use vtladm.Catalog.{Catalog, tape_in_drive, resolve_library_id}
use vtladm.Catalog.Bays.{is_some, clear_tape}
use vtladm.Catalog.Tapes.{Tape, find_named, find_tape, update_tape}
use vtladm.Changer.{IoResult, done, failed}
use vtladm.Changer.World.{World, M, ◌>>=◌, ◌>>◌, pure, lift, query, attempt, continue, transact}
use vtladm.Changer.Calls.{io_result}
use vtladm.Handlers.{with_unit}
use vtladm.Offline.{on_disk, undone}

-- The calls of the standard library on the image files.
pub record Images (K : Type 0) : Type 0 where
  pub remove_file : Text → K → IoResult (Unit {0}) × K
  pub open_write : Text → K → IoResult (Unit {0}) × K
  pub length_of : Text → K → IoResult ℕ
  pub set_len : Text → ℕ → K → IoResult (Unit {0}) × K
  pub sync_all : Text → K → IoResult (Unit {0}) × K

-- `DELETE FROM tapes WHERE id = t`.
unfoldable pub delete_row : ℕ → List Tape → List Tape
delete_row t [] = []
delete_row t (r ∷ rs) = let rest = delete_row t rs in if r.id == t then rest else r ∷ rest

-- The transaction of a deletion, for the row that was found.
unfoldable pub delete_rows_of : ℕ → ℕ → Catalog → Catalog
unfolding delete_row
delete_rows_of lib t db = record db {
  slots = clear_tape lib t db.slots;
  drives = clear_tape lib t db.drives;
  tapes = delete_row t db.tapes;
}

abbrev pub blank : Tape → Tape
blank r = record r { used_bytes = 0 }

-- The row that may be made blank.
unfoldable pub check_init : Catalog → ℕ → Text → Result Tape
check_init db lib name =
    Errors.◌>>=◌ (ok_or (find_named lib name db.tapes) (tape_not_found name)) λ r.
      Errors.◌>>◌ (refuse (tape_in_drive db lib r.id) in_drive_error) (
        Errors.◌>>◌ (refuse (is_some r.slot) tape_not_on_shelf)
          (Errors.◌>>◌ (ensure (is_some r.shelf_id) tape_not_on_shelf) (ok r)))

-- `UPDATE tapes SET used_bytes = 0 WHERE id = t`, and `rows != 1`.
unfoldable pub blank_rows : Text → ℕ → Catalog → Result Catalog
blank_rows name t db =
    Errors.◌>>◌ (ensure (is_some (find_tape t db.tapes)) (tape_not_found name))
      (ok (record db { tapes = update_tape t blank db.tapes }))

module _ {K : Type 0} (fs : Images K) where
  -- The file is removed after the commit: a failure then is an error, and the row is gone.
  unfoldable pub delete_tape_in_library : Text → Text → M K (Unit {0})
  unfolding delete_rows_of
  delete_tape_in_library library name = do
    lib ← query (λ db. resolve_library_id db library)
    r ← query (λ db. ok_or (find_named lib name db.tapes) (tape_not_found name))
    transact (λ db. ok (tt, delete_rows_of lib r.id db))
    on_disk (fs.remove_file r.image_path)

  abbrev pub previous_length : Text → M K ℕ
  previous_length path w = (io_result (fs.length_of path w.kernel), w)

  -- The row's update; when it fails, the file gets its old length again.
  abbrev pub blank_row : Text → Tape → ℕ → M K (Unit {0})
  blank_row name r before =
      attempt (transact (λ db. with_unit (blank_rows name r.id db)))
      >>= undone (on_disk (fs.set_len r.image_path before))

  -- A failed sync is only logged.
  unfoldable pub blank_tape : Text → Tape → M K (Unit {0})
  unfolding blank_rows
  blank_tape name r = do
    on_disk (fs.open_write r.image_path)
    before ← previous_length r.image_path
    on_disk (fs.set_len r.image_path r.capacity_bytes)
    _ ← attempt (on_disk (fs.sync_all r.image_path))
    blank_row name r before

  unfoldable pub init_tape_in_library : Text → Text → M K (Unit {0})
  unfolding check_init blank_tape
  init_tape_in_library library name = do
    lib ← query (λ db. resolve_library_id db library)
    r ← query (λ db. check_init db lib name)
    blank_tape name r
