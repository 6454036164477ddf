-- ===== src/Robot/Unload.antt =====
-- The invariant and the places of the tapes under the transaction of `unload_tape`.
use vtladm.Prelude.{ℕ, ◌+◌, ◌≡◌, refl, true, false, none, some, arith}
use vtladm.Errors.{ok}
use vtladm.Catalog.{Catalog}
use vtladm.Catalog.Bays.{
  is_some, content, bay_at, set_bay, held, held-set_bay, held-bay_at, held_cleared,
  set_bay-UniqueKeys,
}
use vtladm.Catalog.Tapes.{
  Tape, find_tape, update_tape, in_slot, find_tape-update_tape, update_tape-UniqueIds,
}
use vtladm.Catalog.Agreement.{
  slot_place, drive_place, all-agrees-update_tape, all-agrees-clear, all-agrees-move_in,
  tape_of_bay,
}
use vtladm.Robot.{unload_rows, first_empty}
use vtladm.Robot.Valid.{IsValid, places}
use vtladm.Robot.Empty.{first_empty_sound, free_content}

module _ (db : Catalog) (lib drive : ℕ) {t target : ℕ} {after : Catalog}
    (done : unload_rows db lib drive ≡ ok (t, target, after)) (v : IsValid db) where
  unload_rows_source : content (bay_at lib drive db.drives) ≡ some t
  unfolding unload_rows
  unload_rows_source = ground arith

  unload_rows_result : after ≡ record db {
    tapes = update_tape t (in_slot target) db.tapes;
    slots = set_bay lib target (some t) db.slots;
    drives = set_bay lib drive none db.drives;
  }
  unfolding unload_rows
  unload_rows_result = ground arith

  unload_rows_tape : (r : Tape) × (find_tape t db.tapes ≡ some r) × (drive_place lib drive r ≡ true)
  unload_rows_tape =
      tape_of_bay drive_place lib drive t db.tapes db.drives unload_rows_source v.drives_agree

  -- A tape in a drive names no slot, so it goes to the first empty data slot.
  pub unload_rows_target : first_empty false lib db.slots ≡ some target
  unfolding unload_rows
  unload_rows_target = let (r, e, h) = unload_rows_tape in ground (arith, e, h)

  unload_rows_free :
      (content (bay_at lib target db.slots) ≡ none) × (is_some (bay_at lib target db.slots) ≡ true)
  unload_rows_free =
      free_content false _
        (first_empty_sound false lib target db.slots v.slot_keys unload_rows_target)

  held-unload_rows :
      (u : ℕ) → held u after.slots + held u after.drives ≡ held u db.slots + held u db.drives
  held-unload_rows u = ground (
    arith,
    unload_rows_source,
    unload_rows_result,
    unload_rows_free,
    held-set_bay u lib target (some t) db.slots v.slot_keys,
    held-set_bay u lib drive none db.drives v.drive_keys,
  )

  -- An unload keeps the catalog valid.
  pub unload_rows-IsValid : IsValid after
  unload_rows-IsValid = rw unload_rows_result (record {
    slot_keys = set_bay-UniqueKeys lib target (some t) db.slots v.slot_keys;
    drive_keys = set_bay-UniqueKeys lib drive none db.drives v.drive_keys;
    tape_ids = update_tape-UniqueIds t (in_slot target) db.tapes (λ r. refl) v.tape_ids;
    single = λ u. ground (arith, v.single u, held-unload_rows u, unload_rows_result);
    slots_agree =
        let (r, e, h) = unload_rows_tape in
        all-agrees-move_in slot_place lib target t (in_slot target) db.tapes r db.slots (λ x. refl)
          e (ground (arith, h))
          (ground (arith, v.single t, held-bay_at t lib drive db.drives, unload_rows_source))
          v.slots_agree;
    drives_agree =
        all-agrees-update_tape drive_place t (in_slot target) db.tapes _ (λ r. refl)
          (held_cleared lib drive t db.drives v.drive_keys unload_rows_source
            (omega (arith, v.single t)))
          (all-agrees-clear drive_place lib drive db.tapes db.drives v.drives_agree);
  })

  -- An unload moves one tape, and loses or doubles none.
  pub places-unload_rows : (u : ℕ) → places u after ≡ places u db
  unfolding places
  places-unload_rows u =
      let (r, e, h) = unload_rows_tape in
      ground (
        arith,
        held-unload_rows u,
        unload_rows_result,
        e,
        h,
        find_tape-update_tape t (in_slot target) u db.tapes (λ x. refl),
      )

  -- An unload keeps the catalog valid, and moves one tape: every tape is in as many places as before.
  pub unload_rows_moves : (u : ℕ) → IsValid after × (places u after ≡ places u db)
  unload_rows_moves u = (unload_rows-IsValid, places-unload_rows u)
