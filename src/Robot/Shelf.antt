-- ===== src/Robot/Shelf.antt =====
-- The invariant and the places of the tapes under the transaction of `shelf_place_tape`.
use vtladm.Prelude.{
  ℕ, Text, text_eq, ◌≤◌, ◌≡◌, refl, Bool, ◌≢◌, true, false, ◌==◌, Option, none, some, arith, List,
  all,
}
use vtladm.Errors.{ok}
use vtladm.Catalog.{Catalog, tape_in_drive}
use vtladm.Catalog.Bays.{
  Bay, content, bay_at, held, held-set_bay, set_bay-UniqueKeys, UniqueKeys, clear_tape,
  clear_tape-UniqueKeys, held-clear_tape, held-clear_tape_other,
}
use vtladm.Catalog.Tapes.{
  Tape, find_tape, find_named, update_tape, on_shelf, find_tape-update_tape, update_tape-UniqueIds,
  find_named_sound,
}
use vtladm.Catalog.Agreement.{
  agrees, slot_place, drive_place, all-agrees-update_tape, all-agrees-clear, all-agrees-clear_tape,
  held-clear_tape_self, held-any_holds,
}
use vtladm.Robot.{shelf_place_rows, clear_named_slot, target_shelf}
use vtladm.Robot.Valid.{IsValid, places}

-- What a valid catalog says of the slots that are left when a tape's named slot is cleared.
pub clear_named_slot-UniqueKeys :
    (lib : ℕ) (s : Option ℕ) (bs : List (Bay Bool))
    → UniqueKeys bs
    → UniqueKeys (clear_named_slot lib s bs)
unfolding clear_named_slot
clear_named_slot-UniqueKeys lib none bs u = u
clear_named_slot-UniqueKeys lib (some s) bs u = set_bay-UniqueKeys lib s none bs u

pub clear_named_slot-agrees :
    (lib : ℕ) (s : Option ℕ) (tapes : List Tape) (bs : List (Bay Bool))
    → all (agrees slot_place tapes) bs ≡ true
    → all (agrees slot_place tapes) (clear_named_slot lib s bs) ≡ true
unfolding clear_named_slot
clear_named_slot-agrees lib none tapes bs h = h
clear_named_slot-agrees lib (some s) tapes bs h = all-agrees-clear slot_place lib s tapes bs h

pub held-clear_named_slot :
    (u lib : ℕ) (s : Option ℕ) (bs : List (Bay Bool))
    → UniqueKeys bs
    → held u (clear_named_slot lib s bs) ≤ held u bs
unfolding clear_named_slot
held-clear_named_slot u lib none bs k = omega arith
held-clear_named_slot u lib (some s) bs k = ground (arith, held-set_bay u lib s none bs k)

abbrev only : ℕ → Option ℕ → Bool
only t none = true
only t (some x) = x == t

-- The slot that a tape's row names holds that tape or nothing.
abbrev pub names_own_slot : ℕ → Option ℕ → ℕ → List (Bay Bool) → Bool
names_own_slot t none lib slots = true
names_own_slot t (some s) lib slots = only t (content (bay_at lib s slots))

held-clear_named_slot_other :
    (u t lib : ℕ) (s : Option ℕ) (bs : List (Bay Bool))
    → UniqueKeys bs
    → names_own_slot t s lib bs ≡ true
    → (u == t) ≡ false
    → held u (clear_named_slot lib s bs) ≡ held u bs
unfolding clear_named_slot
held-clear_named_slot_other u t lib none bs k own h = refl
held-clear_named_slot_other u t lib (some s) bs k own h =
    ground (arith, held-set_bay u lib s none bs k)

module _ (db : Catalog) (lib : ℕ) (name : Text) (shelf_name : Option Text) {shelf : ℕ} {r : Tape}
    {after : Catalog} (named : find_named lib name db.tapes ≡ some r)
    (target : target_shelf db lib shelf_name ≡ ok shelf)
    (done : shelf_place_rows db lib name shelf_name ≡ ok after) (v : IsValid db) where
  shelf_place_row :
      (find_tape r.id db.tapes ≡ some r) × (r.library_id ≡ lib) × (text_eq r.name name ≡ true)
  shelf_place_row = find_named_sound lib name db.tapes r v.tape_ids named

  shelf_place_result : after ≡ record db {
    slots = clear_tape lib r.id (clear_named_slot lib r.slot db.slots);
    tapes = update_tape r.id (on_shelf shelf) db.tapes;
  }
  unfolding shelf_place_rows
  shelf_place_result = ground (arith, named, target, shelf_place_row)

  shelf_place_not_loaded : tape_in_drive db lib r.id ≡ false
  unfolding shelf_place_rows
  shelf_place_not_loaded = ground (arith, named, target, shelf_place_row)

  shelf_place_drives : held r.id db.drives ≡ 0
  unfolding tape_in_drive
  shelf_place_drives =
      held-any_holds drive_place lib r.id r db.tapes db.drives shelf_place_row.0 shelf_place_row.1
        (λ l n h. ground arith) v.drives_agree shelf_place_not_loaded

  remaining_agree : all (agrees slot_place db.tapes) (clear_named_slot lib r.slot db.slots) ≡ true
  remaining_agree = clear_named_slot-agrees lib r.slot db.tapes db.slots v.slots_agree

  shelf_place_slots : held r.id (clear_tape lib r.id (clear_named_slot lib r.slot db.slots)) ≡ 0
  shelf_place_slots =
      held-clear_tape_self slot_place lib r.id r db.tapes _ shelf_place_row.0 shelf_place_row.1
        (λ l n h. ground arith) remaining_agree

  -- Placing a tape on a shelf keeps the catalog valid.
  pub shelf_place-IsValid : IsValid after
  shelf_place-IsValid = rw shelf_place_result (record {
    slot_keys =
        clear_tape-UniqueKeys lib r.id _
          (clear_named_slot-UniqueKeys lib r.slot db.slots v.slot_keys);
    drive_keys = v.drive_keys;
    tape_ids = update_tape-UniqueIds r.id (on_shelf shelf) db.tapes (λ x. refl) v.tape_ids;
    single = λ u. omega (
      arith,
      v.single u,
      held-clear_tape u lib r.id (clear_named_slot lib r.slot db.slots),
      held-clear_named_slot u lib r.slot db.slots v.slot_keys,
    );
    slots_agree =
        all-agrees-update_tape slot_place r.id (on_shelf shelf) db.tapes _ (λ x. refl)
          shelf_place_slots (all-agrees-clear_tape slot_place lib r.id db.tapes _ remaining_agree);
    drives_agree =
        all-agrees-update_tape drive_place r.id (on_shelf shelf) db.tapes db.drives (λ x. refl)
          shelf_place_drives v.drives_agree;
  })

  -- The tape is on the shelf and nowhere else.
  pub places-shelf_place_self : places r.id after ≡ 1
  unfolding places
  places-shelf_place_self = ground (
    arith,
    shelf_place_result,
    shelf_place_slots,
    shelf_place_drives,
    shelf_place_row,
    find_tape-update_tape r.id (on_shelf shelf) r.id db.tapes (λ x. refl),
  )

  -- No other tape moves, if the slot that the tape's row names holds no other tape.
  pub places-shelf_place_other :
      (u : ℕ)
      → u ≢ r.id
      → names_own_slot r.id r.slot lib db.slots ≡ true
      → places u after ≡ places u db
  unfolding places
  places-shelf_place_other u other own = ground (
    arith,
    shelf_place_result,
    held-clear_named_slot_other u r.id lib r.slot db.slots v.slot_keys own,
    held-clear_tape_other u lib r.id (clear_named_slot lib r.slot db.slots),
    find_tape-update_tape r.id (on_shelf shelf) u db.tapes (λ x. refl),
  )

  -- Placing a tape on a shelf keeps the catalog valid; the tape is on the shelf and nowhere else, and
  -- every other tape is in as many places as before, if the slot that the placed tape's row names
  -- holds no other tape.
  pub shelf_place_moves :
      (u : ℕ)
      → u ≢ r.id
      → names_own_slot r.id r.slot lib db.slots ≡ true
      → IsValid after × (places r.id after ≡ 1) × (places u after ≡ places u db)
  shelf_place_moves u other own =
      (shelf_place-IsValid, places-shelf_place_self, places-shelf_place_other u other own)
