-- ===== src/Robot/Eject.antt =====
-- The invariant and the places of the tapes under the transaction of `eject_tape`.
use vtladm.Prelude.{ℕ, ◌+◌, ◌≡◌, refl, true, none, some, arith}
use vtladm.Errors.{ok}
use vtladm.Catalog.{Catalog}
use vtladm.Catalog.Bays.{
  is_some, content, bay_at, set_bay, held, held-set_bay, held-bay_at, held_cleared,
  set_bay-UniqueKeys, bay_at-set_bay_other,
}
use vtladm.Catalog.Tapes.{
  Tape, find_tape, update_tape, in_slot, find_tape-update_tape, update_tape-UniqueIds,
}
use vtladm.Catalog.Agreement.{
  slot_place, drive_place, all-agrees-update_tape, all-agrees-clear, all-agrees-move_in,
  tape_of_bay,
}
use vtladm.Robot.{eject_rows, first_empty}
use vtladm.Robot.Valid.{IsValid, places}
use vtladm.Robot.Empty.{is_free, first_empty_sound, free_content}

module _ (db : Catalog) (lib slot : ℕ) {t mail : ℕ} {after : Catalog}
    (done : eject_rows db lib slot ≡ ok (t, mail, after)) (v : IsValid db) where
  eject_rows_guards :
      (content (bay_at lib slot db.slots) ≡ some t) × (first_empty true lib db.slots ≡ some mail)
  unfolding eject_rows
  eject_rows_guards = ground arith

  eject_rows_result : after ≡ record db {
    tapes = update_tape t (in_slot mail) db.tapes;
    slots = set_bay lib mail (some t) (set_bay lib slot none db.slots);
  }
  unfolding eject_rows
  eject_rows_result = ground arith

  eject_rows_tape : (r : Tape) × (find_tape t db.tapes ≡ some r) × (slot_place lib slot r ≡ true)
  eject_rows_tape =
      tape_of_bay slot_place lib slot t db.tapes db.slots eject_rows_guards.0 v.slots_agree

  -- The mailslot is a free import/export slot.
  pub eject_rows_free : is_free true (bay_at lib mail db.slots) ≡ true
  eject_rows_free = first_empty_sound true lib mail db.slots v.slot_keys eject_rows_guards.1

  eject_rows_empty :
      (content (bay_at lib mail db.slots) ≡ none) × (is_some (bay_at lib mail db.slots) ≡ true)
  eject_rows_empty = free_content true (bay_at lib mail db.slots) eject_rows_free

  eject_rows_other : bay_at lib mail (set_bay lib slot none db.slots) ≡ bay_at lib mail db.slots
  eject_rows_other =
      bay_at-set_bay_other lib slot none lib mail db.slots
        (ground (arith, eject_rows_guards, eject_rows_empty))

  held-eject_rows :
      (u : ℕ) → held u after.slots + held u after.drives ≡ held u db.slots + held u db.drives
  held-eject_rows u = ground (
    arith,
    eject_rows_guards,
    eject_rows_result,
    eject_rows_empty,
    eject_rows_other,
    held-set_bay u lib slot none db.slots v.slot_keys,
    held-set_bay u lib mail (some t) (set_bay lib slot none db.slots)
        (set_bay-UniqueKeys lib slot none db.slots v.slot_keys),
  )

  -- An eject keeps the catalog valid.
  pub eject_rows-IsValid : IsValid after
  eject_rows-IsValid = rw eject_rows_result (record {
    slot_keys =
        set_bay-UniqueKeys lib mail (some t) _
          (set_bay-UniqueKeys lib slot none db.slots v.slot_keys);
    drive_keys = v.drive_keys;
    tape_ids = update_tape-UniqueIds t (in_slot mail) db.tapes (λ r. refl) v.tape_ids;
    single = λ u. ground (arith, v.single u, held-eject_rows u, eject_rows_result);
    slots_agree =
        let (r, e, h) = eject_rows_tape in
        all-agrees-move_in slot_place lib mail t (in_slot mail) db.tapes r
          (set_bay lib slot none db.slots) (λ x. refl) e (ground (arith, h))
          (held_cleared lib slot t db.slots v.slot_keys eject_rows_guards.0
            (omega (arith, v.single t)))
          (all-agrees-clear slot_place lib slot db.tapes db.slots v.slots_agree);
    drives_agree =
        all-agrees-update_tape drive_place t (in_slot mail) db.tapes db.drives (λ r. refl)
          (ground (arith, v.single t, held-bay_at t lib slot db.slots, eject_rows_guards))
          v.drives_agree;
  })

  -- An eject moves one tape, and loses or doubles none.
  pub places-eject_rows : (u : ℕ) → places u after ≡ places u db
  unfolding places
  places-eject_rows u =
      let (r, e, h) = eject_rows_tape in
      ground (
        arith,
        held-eject_rows u,
        eject_rows_result,
        e,
        h,
        find_tape-update_tape t (in_slot mail) u db.tapes (λ x. refl),
      )

  -- An eject keeps the catalog valid, and moves one tape: every tape is in as many places as before.
  pub eject_rows_moves : (u : ℕ) → IsValid after × (places u after ≡ places u db)
  eject_rows_moves u = (eject_rows-IsValid, places-eject_rows u)
