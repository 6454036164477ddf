-- ===== src/Handlers.antt =====
-- The whole robot commands of vtladm-rc/userspace/src/main.rs: the transaction, the ioctl, and the
-- alignment that follows. The library name is the thread's current library. Logging is left out.
pub mod Outcome
pub mod Moves
use vtladm.Prelude.{ℕ, Text, Bool, true, false, Option, none, some}
use vtladm.Errors.{VtlError, Result, ok, err, database_error, ok_or}
use vtladm.Errors
use vtladm.Catalog.{Catalog, resolve_library_id}
use vtladm.Catalog.Tapes.{Tape, find_tape, find_named}
use vtladm.Robot.{load_rows, unload_rows, eject_rows, assign_one_tape_to_slot, shelf_place_rows}
use vtladm.Elements.{db_mailslot_to_element}
use vtladm.Settings.{Settings, robot_sync}
use vtladm.Changer.{Device}
use vtladm.Changer.World.{
  World, M, ◌>>=◌, ◌>>◌, pure, lift, query, attempt, continue, transact, when,
}
use vtladm.Changer.Calls.{
  kernel_load, kernel_unload, kernel_move_medium, kernel_slot_place, evacuate_tape_from_changer,
}
use vtladm.Align.{try_post_op_auto_align}

-- `SELECT name FROM tapes WHERE id = t`, with `?`.
abbrev pub row_of : ℕ → Catalog → Result Tape
row_of t db = ok_or (find_tape t db.tapes) database_error

abbrev pub with_unit : Result Catalog → Result (Unit {0} × Catalog)
with_unit (ok db) = ok (tt, db)
with_unit (err e) = err e

-- `tape_barcode_for_name`.
abbrev pub barcode_of : Option Tape → Option Text
barcode_of none = none
barcode_of (some r) = some r.barcode

abbrev with_place : Result (ℕ × ℕ × Catalog) → Result ((ℕ × ℕ) × Catalog)
with_place (ok (t, n, db)) = ok ((t, n), db)
with_place (err e) = err e

module _ {K : Type 0} (dev : Device K) (s : Settings) where
  -- A request to the kernel when robot sync is on; a failure is a warning.
  abbrev pub tell_kernel : M K (Unit {0}) → M K (Unit {0})
  tell_kernel m = when (robot_sync s) (attempt m >>= λ _. pure tt)

  abbrev pub follow_up : ℕ → M K (Unit {0}) → M K (Unit {0})
  follow_up lib request =
      tell_kernel request >> when (robot_sync s) (try_post_op_auto_align dev s lib)

  unfoldable pub load_tape : Text → ℕ → ℕ → M K (Unit {0})
  load_tape library slot drive = do
    lib ← query (λ db. resolve_library_id db library)
    t ← transact (λ db. load_rows db lib slot drive)
    r ← query (row_of t)
    follow_up lib (kernel_load dev lib slot drive r.name (some r.barcode))

  -- The result is the slot that the tape was moved to.
  unfoldable pub unload_tape : Text → ℕ → M K ℕ
  unload_tape library drive = do
    lib ← query (λ db. resolve_library_id db library)
    p ← transact (λ db. with_place (unload_rows db lib drive))
    _ ← query (row_of p.0)
    follow_up lib (kernel_unload dev lib drive p.1)
    pure p.1

  -- The result is the mailslot that the tape was moved to.
  unfoldable pub eject_tape : Text → ℕ → M K ℕ
  eject_tape library slot = do
    lib ← query (λ db. resolve_library_id db library)
    p ← transact (λ db. with_place (eject_rows db lib slot))
    _ ← query (row_of p.0)
    follow_up lib (kernel_move_medium dev lib slot (db_mailslot_to_element p.1))
    pure p.1

  unfoldable pub assign_tape_to_slot : Text → Text → ℕ → M K (Unit {0})
  assign_tape_to_slot library name slot = do
    lib ← query (λ db. resolve_library_id db library)
    transact (λ db. with_unit (assign_one_tape_to_slot db lib name slot))
    bc ← query (λ db. ok (barcode_of (find_named lib name db.tapes)))
    follow_up lib (kernel_slot_place dev lib slot name bc)

  unfoldable pub shelf_place_tape : Text → Text → Option Text → M K (Unit {0})
  shelf_place_tape library name shelf_name = do
    lib ← query (λ db. resolve_library_id db library)
    transact (λ db. with_unit (shelf_place_rows db lib name shelf_name))
    follow_up lib (evacuate_tape_from_changer dev lib name)
