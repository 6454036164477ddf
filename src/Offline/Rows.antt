-- ===== src/Offline/Rows.antt =====
-- The transactions of the offline storage: a tape leaves a library for a shelf, or comes into a
-- slot.
use vtladm.Prelude.{
  ℕ, Text, ◌≡◌, refl, arith, ◌+◌, Bool, true, false, List, [], ◌∷◌, Option, none, some,
  if◌then◌else◌, all,
}
use vtladm.Errors.{ok}
use vtladm.Catalog.{Catalog, tape_in_drive}
use vtladm.Catalog.Bays.{
  Bay, is_some, holds, content, bay_at, set_bay, held, held-set_bay, set_bay-UniqueKeys,
}
use vtladm.Catalog.Tapes.{
  Tape, find_tape, update_tape, find_tape-update_tape, update_tape-UniqueIds,
}
use vtladm.Catalog.Agreement.{
  agrees, slot_place, drive_place, all-agrees-update_tape, all-agrees-move_in, held_nowhere,
  held-any_holds,
}
use vtladm.Robot.{clear_named_slot}
use vtladm.Robot.Shelf.{clear_named_slot-UniqueKeys, clear_named_slot-agrees, held-clear_named_slot}
use vtladm.Robot.Valid.{IsValid, places}
use vtladm.Offline.{store_rows, fetch_rows, offline_row, online_row}

-- Clearing the slot that the row names takes the tape out of the changer.
held-clear_named_slot_self :
    (lib t : ℕ) (o : Option ℕ) (tapes : List Tape) (r : Tape) (bs : List (Bay Bool))
    → find_tape t tapes ≡ some r
    → r.library_id ≡ lib
    → r.slot ≡ o
    → all (agrees slot_place tapes) bs ≡ true
    → held t (clear_named_slot lib o bs) ≡ 0
unfolding clear_named_slot all held set_bay
held-clear_named_slot_self lib t none tapes r bs row home named h =
    held_nowhere slot_place t r tapes bs row (λ l n. ground (arith, named)) h
held-clear_named_slot_self lib t (some s) tapes r [] row home named h = refl
held-clear_named_slot_self lib t (some s) tapes r (b ∷ bs) row home named h =
    ground
      (arith, row, home, named, held-clear_named_slot_self lib t (some s) tapes r bs row home named)

module _ (db : Catalog) (from offline shelf : ℕ) (path : Text) (r : Tape) {after : Catalog}
    (row : find_tape r.id db.tapes ≡ some r) (home : r.library_id ≡ from)
    (unloaded : tape_in_drive db from r.id ≡ false)
    (done : store_rows from offline shelf path r db ≡ ok after) (v : IsValid db) where
  store_rows_result : after ≡ record db {
    slots = clear_named_slot from r.slot db.slots;
    tapes = update_tape r.id (offline_row offline shelf path) db.tapes;
  }
  unfolding store_rows
  store_rows_result = ground arith

  store_rows_slots : held r.id (clear_named_slot from r.slot db.slots) ≡ 0
  store_rows_slots =
      held-clear_named_slot_self from r.id r.slot db.tapes r db.slots row home refl v.slots_agree

  store_rows_drives : held r.id db.drives ≡ 0
  unfolding tape_in_drive
  store_rows_drives =
      held-any_holds drive_place from r.id r db.tapes db.drives row home (λ l n h. ground arith)
        v.drives_agree unloaded

  -- A move to the offline storage, of a tape that is in no drive, keeps the catalog valid.
  pub store_rows-IsValid : IsValid after
  store_rows-IsValid = rw store_rows_result (record {
    slot_keys = clear_named_slot-UniqueKeys from r.slot db.slots v.slot_keys;
    drive_keys = v.drive_keys;
    tape_ids =
        update_tape-UniqueIds r.id (offline_row offline shelf path) db.tapes (λ x. refl) v.tape_ids;
    single =
        λ u. omega (arith, v.single u, held-clear_named_slot u from r.slot db.slots v.slot_keys);
    slots_agree =
        all-agrees-update_tape slot_place r.id (offline_row offline shelf path) db.tapes _
          (λ x. refl) store_rows_slots
          (clear_named_slot-agrees from r.slot db.tapes db.slots v.slots_agree);
    drives_agree =
        all-agrees-update_tape drive_place r.id (offline_row offline shelf path) db.tapes db.drives
          (λ x. refl) store_rows_drives v.drives_agree;
  })

  -- A tape that was moved to the offline storage, and was in no drive, is in exactly one place.
  pub places-store_rows : places r.id after ≡ 1
  unfolding places
  places-store_rows = ground (
    arith,
    store_rows_result,
    store_rows_slots,
    store_rows_drives,
    row,
    find_tape-update_tape r.id (offline_row offline shelf path) r.id db.tapes (λ x. refl),
  )

module _ (db : Catalog) (online slot : ℕ) (path : Text) (r : Tape) {after : Catalog}
    (row : find_tape r.id db.tapes ≡ some r) (shelved : is_some r.shelf_id ≡ true)
    (empty : content (bay_at online slot db.slots) ≡ none)
    (done : fetch_rows online slot path r db ≡ ok after) (v : IsValid db) where
  fetch_rows_result : after ≡ record db {
    tapes = update_tape r.id (online_row online slot path) db.tapes;
    slots = set_bay online slot (some r.id) db.slots;
  }
  unfolding fetch_rows
  fetch_rows_result = ground arith

  fetch_rows_out : (held r.id db.slots ≡ 0) × (held r.id db.drives ≡ 0)
  fetch_rows_out = (
    held_nowhere slot_place r.id r db.tapes db.slots row (λ l n. ground (arith, shelved))
        v.slots_agree,
    held_nowhere drive_place r.id r db.tapes db.drives row (λ l n. ground (arith, shelved))
        v.drives_agree,
  )

  held-fetch_rows :
      (u : ℕ)
      → held u after.slots + held u after.drives
        ≡ held u db.slots
          + held u db.drives
          + (if is_some (bay_at online slot db.slots) then holds u (some r.id) else 0)
  held-fetch_rows u =
      ground (
        arith,
        fetch_rows_result,
        empty,
        held-set_bay u online slot (some r.id) db.slots v.slot_keys,
      )

  -- A move of a shelved tape from the offline storage into an empty slot keeps the catalog valid.
  pub fetch_rows-IsValid : IsValid after
  fetch_rows-IsValid = rw fetch_rows_result (record {
    slot_keys = set_bay-UniqueKeys online slot (some r.id) db.slots v.slot_keys;
    drive_keys = v.drive_keys;
    tape_ids =
        update_tape-UniqueIds r.id (online_row online slot path) db.tapes (λ x. refl) v.tape_ids;
    single = λ u. ground (arith, v.single u, held-fetch_rows u, fetch_rows_result, fetch_rows_out);
    slots_agree =
        all-agrees-move_in slot_place online slot r.id (online_row online slot path) db.tapes r
          db.slots (λ x. refl) row (ground arith) fetch_rows_out.0 v.slots_agree;
    drives_agree =
        all-agrees-update_tape drive_place r.id (online_row online slot path) db.tapes db.drives
          (λ x. refl) fetch_rows_out.1 v.drives_agree;
  })
