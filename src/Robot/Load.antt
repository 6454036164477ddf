-- ===== src/Robot/Load.antt =====
-- The invariant and the places of the tapes under the transaction of `load_tape`.
use vtladm.Prelude.{ℕ, ◌+◌, ◌≡◌, refl, true, none, some, arith}
use vtladm.Errors.{ok}
use vtladm.Catalog.{Catalog}
use vtladm.Catalog.Bays.{
  is_some, content, bay_at, set_bay, held, held-set_bay, held-bay_at, held_cleared,
  set_bay-UniqueKeys, set_bay_absent,
}
use vtladm.Catalog.Tapes.{
  Tape, find_tape, update_tape, in_drive, find_tape-update_tape, update_tape-UniqueIds,
}
use vtladm.Catalog.Agreement.{
  slot_place, drive_place, all-agrees-update_tape, all-agrees-clear, all-agrees-move_in,
  tape_of_bay,
}
use vtladm.Robot.{load_rows}
use vtladm.Robot.Valid.{IsValid, places}

module _ (db : Catalog) (lib slot drive : ℕ) {t : ℕ} {after : Catalog}
    (done : load_rows db lib slot drive ≡ ok (t, after)) where
  -- The tape was read from the slot, and the drive was empty.
  load_rows_guards :
      (content (bay_at lib slot db.slots) ≡ some t) × (content (bay_at lib drive db.drives) ≡ none)
  unfolding load_rows
  load_rows_guards = ground arith

  load_rows_result : after ≡ record db {
    drives = set_bay lib drive (some t) db.drives;
    tapes = update_tape t in_drive db.tapes;
    slots = set_bay lib slot none db.slots;
  }
  unfolding load_rows
  load_rows_result = ground arith

  -- How often a tape lies somewhere, before and after.
  pub held-load_rows :
      (u : ℕ)
      → IsValid db
      → is_some (bay_at lib drive db.drives) ≡ true
      → held u after.slots + held u after.drives ≡ held u db.slots + held u db.drives
  held-load_rows u v there = ground (
    arith,
    load_rows_guards,
    load_rows_result,
    held-set_bay u lib slot none db.slots v.slot_keys,
    held-set_bay u lib drive (some t) db.drives v.drive_keys,
  )

  -- The row of the loaded tape names the library and the slot.
  load_rows_tape :
      IsValid db → (r : Tape) × (find_tape t db.tapes ≡ some r) × (slot_place lib slot r ≡ true)
  load_rows_tape v =
      tape_of_bay slot_place lib slot t db.tapes db.slots load_rows_guards.0 v.slots_agree

  -- A load into a drive that the library has keeps the catalog valid.
  pub load_rows-IsValid : IsValid db → is_some (bay_at lib drive db.drives) ≡ true → IsValid after
  load_rows-IsValid v there = rw load_rows_result (record {
    slot_keys = set_bay-UniqueKeys lib slot none db.slots v.slot_keys;
    drive_keys = set_bay-UniqueKeys lib drive (some t) db.drives v.drive_keys;
    tape_ids = update_tape-UniqueIds t in_drive db.tapes (λ r. refl) v.tape_ids;
    single = λ u. ground (arith, v.single u, held-load_rows u v there, load_rows_result);
    slots_agree =
        all-agrees-update_tape slot_place t in_drive db.tapes _ (λ r. refl)
          (held_cleared lib slot t db.slots v.slot_keys load_rows_guards.0
            (omega (arith, v.single t)))
          (all-agrees-clear slot_place lib slot db.tapes db.slots v.slots_agree);
    drives_agree =
        let (r, e, h) = load_rows_tape v in
        all-agrees-move_in drive_place lib drive t in_drive db.tapes r db.drives (λ x. refl) e
          (ground (arith, h))
          (ground (arith, v.single t, held-bay_at t lib slot db.slots, load_rows_guards))
          v.drives_agree;
  })

  -- A load into a drive that the library has moves one tape, and loses or doubles none.
  pub places-load_rows :
      (u : ℕ)
      → IsValid db
      → is_some (bay_at lib drive db.drives) ≡ true
      → places u after ≡ places u db
  unfolding places
  places-load_rows u v there =
      let (r, e, h) = load_rows_tape v in
      ground (
        arith,
        held-load_rows u v there,
        load_rows_result,
        e,
        h,
        find_tape-update_tape t in_drive u db.tapes (λ x. refl),
      )

  -- A load into a drive that the library has keeps the catalog valid, and moves one tape: every
  -- tape is in as many places as before.
  pub load_rows_moves :
      (u : ℕ)
      → IsValid db
      → is_some (bay_at lib drive db.drives) ≡ true
      → IsValid after × (places u after ≡ places u db)
  load_rows_moves u v there = (load_rows-IsValid v there, places-load_rows u v there)

  -- A load into a drive that the library does not have succeeds, and the tape is nowhere
  -- afterwards.
  pub load_rows_loses :
      IsValid db → bay_at lib drive db.drives ≡ none → (places t db ≡ 1) × (places t after ≡ 0)
  unfolding places
  load_rows_loses v missing =
      let (r, e, h) = load_rows_tape v in
      ground (
        arith,
        load_rows_guards,
        load_rows_result,
        held_cleared lib slot t db.slots v.slot_keys load_rows_guards.0 (omega (arith, v.single t)),
        held-bay_at t lib slot db.slots,
        v.single t,
        set_bay_absent lib drive (some t) db.drives missing,
        e,
        h,
        find_tape-update_tape t in_drive t db.tapes (λ x. refl),
      )
