-- ===== src/Pull/Valid.antt =====
-- The invariant under a pull: the single steps of `apply_kernel_to_db` of
-- vtladm-rc/userspace/src/reconcile.rs.
use vtladm.Prelude.{ℕ, ◌≡◌, refl, true, false, [], ◌∷◌, some, Dict, contains_key, arith}
use vtladm.Catalog.{Catalog}
use vtladm.Catalog.Bays.{
  set_bay, clear_library-UniqueKeys, held, held-clear_library, held-set_bay-le, set_bay-UniqueKeys,
}
use vtladm.Catalog.Tapes.{Tape, find_tape, update_tape, in_slot, in_drive, update_tape-UniqueIds}
use vtladm.Catalog.Agreement.{
  slot_place, drive_place, all-agrees-clear_library, held-clear_library_self, all-agrees-move_in,
  all-agrees-update_tape,
}
use vtladm.Elements.{MediumLocation, data_slot, drive, mail_slot}
use vtladm.Robot.Valid.{IsValid}
use vtladm.Pull.{place_tape, emptied}

pub emptied-IsValid : (db : Catalog) (lib : ℕ) → IsValid db → IsValid (emptied lib db)
emptied-IsValid db lib v = record {
  slot_keys = clear_library-UniqueKeys lib db.slots v.slot_keys;
  drive_keys = clear_library-UniqueKeys lib db.drives v.drive_keys;
  tape_ids = v.tape_ids;
  single = λ u.
      omega
        (arith, v.single u, held-clear_library u lib db.slots, held-clear_library u lib db.drives);
  slots_agree = all-agrees-clear_library slot_place lib db.tapes db.slots v.slots_agree;
  drives_agree = all-agrees-clear_library drive_place lib db.tapes db.drives v.drives_agree;
}

-- A tape of the library that lies nowhere is put into a bay, or into a bay that is not there.
module _ (db : Catalog) (lib t : ℕ) (r : Tape) (v : IsValid db)
    (row : find_tape t db.tapes ≡ some r) (home : r.library_id ≡ lib)
    (no_slot : held t db.slots ≡ 0) (no_drive : held t db.drives ≡ 0) where
  into_slot-IsValid :
      (s : ℕ)
      → IsValid (record db {
        slots = set_bay lib s (some t) db.slots;
        tapes = update_tape t (in_slot s) db.tapes;
      })
  into_slot-IsValid s = record {
    slot_keys = set_bay-UniqueKeys lib s (some t) db.slots v.slot_keys;
    drive_keys = v.drive_keys;
    tape_ids = update_tape-UniqueIds t (in_slot s) db.tapes (λ x. refl) v.tape_ids;
    single = λ u. ground (arith, v.single u, held-set_bay-le u lib s t db.slots v.slot_keys);
    slots_agree =
        all-agrees-move_in slot_place lib s t (in_slot s) db.tapes r db.slots (λ x. refl) row
          (ground arith) no_slot v.slots_agree;
    drives_agree =
        all-agrees-update_tape drive_place t (in_slot s) db.tapes db.drives (λ x. refl) no_drive
          v.drives_agree;
  }

  into_drive-IsValid :
      (d : ℕ)
      → IsValid (record db {
        drives = set_bay lib d (some t) db.drives;
        tapes = update_tape t in_drive db.tapes;
      })
  into_drive-IsValid d = record {
    slot_keys = v.slot_keys;
    drive_keys = set_bay-UniqueKeys lib d (some t) db.drives v.drive_keys;
    tape_ids = update_tape-UniqueIds t in_drive db.tapes (λ x. refl) v.tape_ids;
    single = λ u. ground (arith, v.single u, held-set_bay-le u lib d t db.drives v.drive_keys);
    slots_agree =
        all-agrees-update_tape slot_place t in_drive db.tapes db.slots (λ x. refl) no_slot
          v.slots_agree;
    drives_agree =
        all-agrees-move_in drive_place lib d t in_drive db.tapes r db.drives (λ x. refl) row
          (ground arith) no_drive v.drives_agree;
  }

  pub place_tape-IsValid : (loc : MediumLocation) → IsValid (place_tape lib t loc db)
  unfolding place_tape
  place_tape-IsValid (data_slot s) = into_slot-IsValid s
  place_tape-IsValid (drive d) = into_drive-IsValid d
  place_tape-IsValid (mail_slot s) = into_slot-IsValid s

-- No name stands twice in an inventory.
abbrev pub UniqueNames : Dict MediumLocation → Type 0
UniqueNames [] = Unit {0}
UniqueNames ((name, loc) ∷ m) = (contains_key name m ≡ false) × UniqueNames m

-- The tapes of the library that are still to be placed lie nowhere.
abbrev pub Waiting : ℕ → Dict MediumLocation → Catalog → Type 0
Waiting lib m db =
    (u : ℕ) (r : Tape)
    → find_tape u db.tapes ≡ some r
    → r.library_id ≡ lib
    → contains_key r.name m ≡ true
    → (held u db.slots ≡ 0) × (held u db.drives ≡ 0)

pub emptied-Waiting :
    (db : Catalog) (lib : ℕ) (m : Dict MediumLocation) → IsValid db → Waiting lib m (emptied lib db)
emptied-Waiting db lib m v u r row home named = (
  held-clear_library_self slot_place lib u r db.tapes db.slots row home (λ l n h. ground arith)
      v.slots_agree,
  held-clear_library_self drive_place lib u r db.tapes db.drives row home (λ l n h. ground arith)
      v.drives_agree,
)
