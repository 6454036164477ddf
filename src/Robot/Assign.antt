-- ===== src/Robot/Assign.antt =====
-- The invariant and the places of the tapes under `assign_one_tape_to_slot`.
use vtladm.Prelude.{ℕ, Text, if◌then◌else◌, text_eq, ◌+◌, ◌≡◌, refl, true, none, some, arith}
use vtladm.Errors.{ok}
use vtladm.Catalog.{Catalog}
use vtladm.Catalog.Bays.{
  is_some, content, bay_at, set_bay, held, holds, held-set_bay, set_bay-UniqueKeys,
}
use vtladm.Catalog.Tapes.{
  Tape, find_tape, find_named, update_tape, in_slot, find_tape-update_tape, update_tape-UniqueIds,
  find_named_sound,
}
use vtladm.Catalog.Agreement.{
  slot_place, drive_place, all-agrees-update_tape, all-agrees-move_in, held_nowhere,
}
use vtladm.Robot.{assign_one_tape_to_slot}
use vtladm.Robot.Valid.{IsValid, places}

module _ (db : Catalog) (lib slot : ℕ) (name : Text) {r : Tape} {after : Catalog}
    (named : find_named lib name db.tapes ≡ some r)
    (done : assign_one_tape_to_slot db lib name slot ≡ ok after) (v : IsValid db) where
  assign_row :
      (find_tape r.id db.tapes ≡ some r) × (r.library_id ≡ lib) × (text_eq r.name name ≡ true)
  assign_row = find_named_sound lib name db.tapes r v.tape_ids named

  -- The tape was on a shelf, in no slot, and the slot holds nothing.
  pub assign_guards :
      (is_some r.shelf_id ≡ true) × (r.slot ≡ none) × (content (bay_at lib slot db.slots) ≡ none)
  unfolding assign_one_tape_to_slot
  assign_guards = ground (arith, named, assign_row)

  assign_result : after ≡ record db {
    tapes = update_tape r.id (in_slot slot) db.tapes;
    slots = set_bay lib slot (some r.id) db.slots;
  }
  unfolding assign_one_tape_to_slot
  assign_result = ground (arith, named, assign_row)

  assign_out : (held r.id db.slots ≡ 0) × (held r.id db.drives ≡ 0)
  assign_out = (
    held_nowhere slot_place r.id r db.tapes db.slots assign_row.0
        (λ l n. ground (arith, assign_guards)) v.slots_agree,
    held_nowhere drive_place r.id r db.tapes db.drives assign_row.0
        (λ l n. ground (arith, assign_guards)) v.drives_agree,
  )

  held-assign :
      (u : ℕ)
      → held u after.slots + held u after.drives
        ≡ held u db.slots
          + held u db.drives
          + (if is_some (bay_at lib slot db.slots) then holds u (some r.id) else 0)
  held-assign u = ground (
    arith,
    assign_result,
    assign_guards,
    held-set_bay u lib slot (some r.id) db.slots v.slot_keys,
  )

  -- An assignment to any slot number keeps the catalog valid.
  pub assign-IsValid : IsValid after
  assign-IsValid = rw assign_result (record {
    slot_keys = set_bay-UniqueKeys lib slot (some r.id) db.slots v.slot_keys;
    drive_keys = v.drive_keys;
    tape_ids = update_tape-UniqueIds r.id (in_slot slot) db.tapes (λ x. refl) v.tape_ids;
    single = λ u. ground (arith, v.single u, held-assign u, assign_result, assign_out);
    slots_agree =
        all-agrees-move_in slot_place lib slot r.id (in_slot slot) db.tapes r db.slots (λ x. refl)
          assign_row.0 (ground (arith, assign_row)) assign_out.0 v.slots_agree;
    drives_agree =
        all-agrees-update_tape drive_place r.id (in_slot slot) db.tapes db.drives (λ x. refl)
          assign_out.1 v.drives_agree;
  })

  -- An assignment to a slot that the library has moves one tape, and loses or doubles none.
  pub places-assign :
      (u : ℕ) → is_some (bay_at lib slot db.slots) ≡ true → places u after ≡ places u db
  unfolding places
  places-assign u there = ground (
    arith,
    held-assign u,
    assign_result,
    assign_row,
    assign_guards,
    find_tape-update_tape r.id (in_slot slot) u db.tapes (λ x. refl),
  )

  -- An assignment to a slot that the library has keeps the catalog valid, and moves one tape: every
  -- tape is in as many places as before.
  pub assign_moves :
      (u : ℕ)
      → is_some (bay_at lib slot db.slots) ≡ true
      → IsValid after × (places u after ≡ places u db)
  assign_moves u there = (assign-IsValid, places-assign u there)

  -- An assignment to a slot that the library does not have succeeds, and the tape is nowhere
  -- afterwards.
  pub assign_loses :
      bay_at lib slot db.slots ≡ none → (places r.id db ≡ 1) × (places r.id after ≡ 0)
  unfolding places
  assign_loses missing = ground (
    arith,
    held-assign r.id,
    assign_result,
    assign_row,
    assign_guards,
    assign_out,
    find_tape-update_tape r.id (in_slot slot) r.id db.tapes (λ x. refl),
  )
