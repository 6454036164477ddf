-- ===== src/Offline/Batch.antt =====
-- `assign_tapes_to_slots_batch`: tapes from the library's shelves and from the offline storage go
-- into slots, one by one, after all of them were checked.
use vtladm.Prelude.{
  ℕ, Text, Bool, true, false, ◌&&◌, ◌||◌, not, List, [], ◌∷◌, ◌==◌, if◌then◌else◌, text_eq, keep,
  length, ltb, map,
}
use vtladm.Errors.{
  Result, ok, ◌>>=◌, ◌>>◌, refuse, ensure, ok_or, invalid_parameter, tape_not_found,
  tape_not_on_shelf, tape_in_drive as in_drive_error, name_used_here, slot_inconsistent,
  already_in_slot, empty_batch, offline_library, batch_too_large, duplicate_slot, duplicate_tape,
}
use vtladm.Catalog.{Catalog, offline_library_name, tape_in_drive, resolve_library_id}
use vtladm.Catalog.Bays.{is_some}
use vtladm.Catalog.Tapes.{find_named}
use vtladm.Robot.{assign_one_tape_to_slot}
use vtladm.Settings.{Settings, robot_sync}
use vtladm.Changer.{Device}
use vtladm.Changer.World
use vtladm.Changer.World.{World, M, pure, lift, query, transact, when, continue}
use vtladm.Changer.Calls.{kernel_slot_place}
use vtladm.Shelves.{has_duplicate}
use vtladm.Handlers.{tell_kernel, barcode_of, with_unit, row_of}
use vtladm.Align.{try_post_op_auto_align}
use vtladm.Offline.{
  Files, assert_data_slot_empty, ensure_offline_library, import_offline_tape_to_online_slot,
}

-- One request: the tape, the slot, and whether the tape is in the offline storage.
pub record Move : Type 0 where
  pub name : Text
  pub slot : ℕ
  pub from_offline : Bool

-- The checks of a tape that comes from the offline storage.
abbrev ready_offline : Catalog → ℕ → ℕ → Text → Result (Unit {0})
ready_offline db online offline name = do
  r ← ok_or (find_named offline name db.tapes) (tape_not_found name)
  refuse (is_some r.slot) (invalid_parameter slot_inconsistent)
  ensure (is_some r.shelf_id) tape_not_on_shelf
  refuse (tape_in_drive db offline r.id) in_drive_error
  refuse (is_some (find_named online name db.tapes)) (invalid_parameter name_used_here)

-- The checks of a tape that stands on a shelf of the library.
abbrev ready_online : Catalog → ℕ → Text → Result (Unit {0})
ready_online db online name = do
  found ← ok_or (find_named online name db.tapes) (tape_not_found name)
  refuse (tape_in_drive db online found.id) in_drive_error
  r ← row_of found.id db
  refuse (is_some r.slot) (invalid_parameter already_in_slot)
  ensure (is_some r.shelf_id) tape_not_on_shelf

unfoldable pub validate_tape_ready_for_online_slot :
    Catalog → ℕ → ℕ → Text → ℕ → Bool → Result (Unit {0})
unfolding assert_data_slot_empty
validate_tape_ready_for_online_slot db online offline name slot from_offline = do
  assert_data_slot_empty db online slot
  if from_offline then ready_offline db online offline name else ready_online db online name

unfoldable pub validate_each : Catalog → ℕ → ℕ → List Move → Result (Unit {0})
unfolding validate_tape_ready_for_online_slot
validate_each db online offline [] = ok tt
validate_each db online offline (m ∷ ms) =
    validate_tape_ready_for_online_slot db online offline m.name m.slot m.from_offline
    >> validate_each db online offline ms

-- `SELECT COUNT(*) FROM slots WHERE … tape_id IS NULL AND is_import_export = 0`.
unfoldable pub count_empty : Catalog → ℕ → ℕ
count_empty db lib =
    length (keep (λ b. b.library_id == lib && not (is_some b.tape_id) && not b.column) db.slots)

unfoldable pub slot_among : ℕ → List Move → Bool
slot_among n [] = false
slot_among n (m ∷ ms) = m.slot == n || slot_among n ms

unfoldable pub duplicate_slots : List Move → Bool
unfolding slot_among
duplicate_slots [] = false
duplicate_slots (m ∷ ms) = slot_among m.slot ms || duplicate_slots ms

abbrev pub no_moves : List Move → Bool
no_moves [] = true
no_moves (m ∷ ms) = false

-- The checks that read the request and the catalog, before any tape is moved.
unfoldable pub check_batch : Catalog → ℕ → ℕ → List Move → Result (Unit {0})
unfolding duplicate_slots validate_each count_empty has_duplicate
check_batch db online offline moves = do
  refuse (ltb (count_empty db online) (length moves)) (invalid_parameter batch_too_large)
  refuse (duplicate_slots moves) (invalid_parameter duplicate_slot)
  refuse (has_duplicate (map (λ m. m.name) moves)) (invalid_parameter duplicate_tape)
  validate_each db online offline moves

module _ {K : Type 0} (dev : Device K) (s : Settings) (fs : Files K) (tape_dir : Text) where
  -- A tape of the library's own shelves: the kernel is told when robot sync is on.
  abbrev pub assign_from_shelf : ℕ → Text → ℕ → M K (Unit {0})
  assign_from_shelf online name slot =
      World.◌>>◌ (transact (λ db. with_unit (assign_one_tape_to_slot db online name slot))) (
        World.◌>>=◌ (query (λ db. ok (barcode_of (find_named online name db.tapes))))
          λ bc. tell_kernel dev s (kernel_slot_place dev online slot name bc))

  unfoldable pub move_one : Text → ℕ → ℕ → Move → M K (Unit {0})
  move_one library online offline m =
      let fetch =
        import_offline_tape_to_online_slot fs tape_dir library online offline m.name m.slot in
      let assign = assign_from_shelf online m.name m.slot in
      if m.from_offline then fetch else assign

  unfoldable pub move_each : Text → ℕ → ℕ → List Move → M K (Unit {0})
  unfolding move_one
  move_each library online offline [] = pure tt
  move_each library online offline (m ∷ ms) =
      World.◌>>◌ (move_one library online offline m) (move_each library online offline ms)

  unfoldable pub assign_tapes_to_slots_batch : Text → List Move → M K (Unit {0})
  unfolding move_each check_batch
  assign_tapes_to_slots_batch library moves =
      World.◌>>◌ (lift (refuse (no_moves moves) (invalid_parameter empty_batch))) (
        World.◌>>◌
          (lift (refuse (text_eq library offline_library_name) (invalid_parameter offline_library)))
          (World.◌>>=◌ (query (λ db. resolve_library_id db library)) λ online.
            World.◌>>=◌ (ensure_offline_library fs tape_dir) λ offline.
              World.◌>>◌ (query (λ db. check_batch db online offline moves)) (
                World.◌>>◌ (move_each library online offline moves)
                  (when (robot_sync s) (try_post_op_auto_align dev s online)))))
