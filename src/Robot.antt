-- ===== src/Robot.antt =====
-- The transactions of the robot operations of vtladm-rc/userspace/src/main.rs: what load, unload,
-- eject, assign-slot and shelf place read and write in the catalog, between BEGIN and COMMIT. An
-- error drops the transaction, so it has no catalog.
pub mod Valid
pub mod Empty
pub mod Load
pub mod Unload
pub mod Shelf
pub mod Eject
pub mod Assign
use vtladm.Prelude.{
  ℕ, Text, Bool, true, false, ◌&&◌, not, List, [], ◌∷◌, Option, none, some, ◌==◌, ltb,
  if◌then◌else◌,
}
use vtladm.Errors.{
  Result, ok, err, ◌>>=◌, ◌>>◌, refuse, ensure, ok_or, slot_empty, drive_busy, drive_empty,
  no_available_slots, tape_not_found, tape_in_drive as in_drive_error, tape_not_on_shelf,
  invalid_parameter, already_in_slot, slot_not_empty,
}
use vtladm.Catalog.{Catalog, tape_in_drive, resolve_shelf_id, default_shelf_id}
use vtladm.Catalog.Bays.{Bay, is_some, content, bay_at, set_bay, clear_tape}
use vtladm.Catalog.Tapes.{Tape, find_tape, find_named, update_tape, in_slot, in_drive, on_shelf}

abbrev same : Bool → Bool → Bool
same true b = b
same false b = not b

abbrev lower : ℕ → Option ℕ → Option ℕ
lower n none = some n
lower n (some m) = if ltb m n then some m else some n

-- `SELECT slot_id FROM slots WHERE library_id = lib AND tape_id IS NULL AND is_import_export = mail
-- ORDER BY slot_id`, and its first row.
unfoldable pub first_empty : Bool → ℕ → List (Bay Bool) → Option ℕ
first_empty mail lib [] = none
first_empty mail lib (b ∷ bs) =
    if b.library_id == lib && not (is_some b.tape_id) && same mail b.column
    then lower b.number (first_empty mail lib bs)
    else first_empty mail lib bs

-- `load_tape`: the tape that was moved, and the catalog.
unfoldable pub load_rows : Catalog → ℕ → ℕ → ℕ → Result (ℕ × Catalog)
load_rows db lib slot drive = do
  t ← ok_or (content (bay_at lib slot db.slots)) slot_empty
  refuse (is_some (content (bay_at lib drive db.drives))) drive_busy
  ok (
    t,
    record db {
      drives = set_bay lib drive (some t) db.drives;
      tapes = update_tape t in_drive db.tapes;
      slots = set_bay lib slot none db.slots;
    },
  )

abbrev slot_of : Option Tape → Option ℕ
slot_of none = none
slot_of (some r) = r.slot

-- The slot that the tape's row still names, else the first empty data slot.
target_slot : Option ℕ → Option ℕ → Result ℕ
target_slot (some s) free = ok s
target_slot none free = ok_or free no_available_slots

-- `unload_tape`: the tape, the slot that it went to, and the catalog.
unfoldable pub unload_rows : Catalog → ℕ → ℕ → Result (ℕ × ℕ × Catalog)
unfolding target_slot
unload_rows db lib drive = do
  t ← ok_or (content (bay_at lib drive db.drives)) drive_empty
  target ← target_slot (slot_of (find_tape t db.tapes)) (first_empty false lib db.slots)
  ok (
    t,
    target,
    record db {
      tapes = update_tape t (in_slot target) db.tapes;
      slots = set_bay lib target (some t) db.slots;
      drives = set_bay lib drive none db.drives;
    },
  )

-- `eject_tape`: the tape, the mailslot that it went to, and the catalog.
unfoldable pub eject_rows : Catalog → ℕ → ℕ → Result (ℕ × ℕ × Catalog)
eject_rows db lib slot = do
  t ← ok_or (content (bay_at lib slot db.slots)) slot_empty
  mailslot ← ok_or (first_empty true lib db.slots) no_available_slots
  ok (
    t,
    mailslot,
    record db {
      tapes = update_tape t (in_slot mailslot) db.tapes;
      slots = set_bay lib mailslot (some t) (set_bay lib slot none db.slots);
    },
  )

-- `assign_one_tape_to_slot`.
unfoldable pub assign_one_tape_to_slot : Catalog → ℕ → Text → ℕ → Result Catalog
assign_one_tape_to_slot db lib name slot = do
  found ← ok_or (find_named lib name db.tapes) (tape_not_found name)
  refuse (tape_in_drive db lib found.id) in_drive_error
  r ← ok_or (find_tape found.id db.tapes) (tape_not_found name)
  refuse (is_some r.slot) (invalid_parameter already_in_slot)
  ensure (is_some r.shelf_id) tape_not_on_shelf
  refuse (is_some (content (bay_at lib slot db.slots))) (invalid_parameter slot_not_empty)
  ok (record db {
    tapes = update_tape found.id (in_slot slot) db.tapes;
    slots = set_bay lib slot (some found.id) db.slots;
  })

unfoldable pub target_shelf : Catalog → ℕ → Option Text → Result ℕ
target_shelf db lib none = default_shelf_id db lib
target_shelf db lib (some name) = resolve_shelf_id db lib name

-- `if let Some(s) = current_slot { … }`.
unfoldable pub clear_named_slot : ℕ → Option ℕ → List (Bay Bool) → List (Bay Bool)
clear_named_slot lib none slots = slots
clear_named_slot lib (some s) slots = set_bay lib s none slots

-- `shelf_place_tape`.
unfoldable pub shelf_place_rows : Catalog → ℕ → Text → Option Text → Result Catalog
unfolding target_shelf clear_named_slot
shelf_place_rows db lib name shelf_name = do
  found ← ok_or (find_named lib name db.tapes) (tape_not_found name)
  refuse (tape_in_drive db lib found.id) in_drive_error
  shelf ← target_shelf db lib shelf_name
  r ← ok_or (find_tape found.id db.tapes) (tape_not_found name)
  ok (record db {
    slots = clear_tape lib found.id (clear_named_slot lib r.slot db.slots);
    tapes = update_tape found.id (on_shelf shelf) db.tapes;
  })
