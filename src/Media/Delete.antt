-- ===== src/Media/Delete.antt =====
-- The invariant under the deletion of a tape.
use vtladm.Prelude.{
  ℕ, Text, ◌≡◌, refl, arith, true, List, [], ◌∷◌, none, some, ◌==◌, if◌then◌else◌, all, inl, inr,
  Option-cases, ==_refl,
}
use vtladm.Catalog.{Catalog, resolve_library_id}
use vtladm.Catalog.Bays.{Bay, held, clear_tape, held-clear_tape, clear_tape-UniqueKeys}
use vtladm.Catalog.Tapes.{Tape, find_tape, find_named, find_named_sound, UniqueIds}
use vtladm.Catalog.Agreement.{
  Place, agrees, slot_place, drive_place, all-agrees-clear_tape, held-clear_tape_self,
}
use vtladm.Robot.Valid.{IsValid, places}
use vtladm.Offline.Keeps.{KeepsValid, continue-KeepsValid}
use vtladm.Media.{Images, delete_row, delete_rows_of, delete_tape_in_library}

find_tape-delete_row :
    (t u : ℕ) (rs : List Tape)
    → find_tape u (delete_row t rs) ≡ (if u == t then none else find_tape u rs)
unfolding find_tape delete_row
find_tape-delete_row t u [] = ground arith
find_tape-delete_row t u (r ∷ rs) = ground (arith, find_tape-delete_row t u rs)

delete_row-UniqueIds : (t : ℕ) (rs : List Tape) → UniqueIds rs → UniqueIds (delete_row t rs)
unfolding delete_row
delete_row-UniqueIds t [] u = tt
delete_row-UniqueIds t (r ∷ rs) u =
    ground (arith, find_tape-delete_row t r.id rs, delete_row-UniqueIds t rs u.1)

-- Where the deleted tape does not lie, its row is not missed.
all-agrees-delete_row :
    {A : Type 0} (p : Place) (t : ℕ) (tapes : List Tape) (bs : List (Bay A))
    → held t bs ≡ 0
    → all (agrees p tapes) bs ≡ true
    → all (agrees p (delete_row t tapes)) bs ≡ true
unfolding all held
all-agrees-delete_row p t tapes [] h a = refl
all-agrees-delete_row p t tapes (b ∷ bs) h a = elim (Option-cases b.tape_id) [
  | inl empty ↦ ground (arith, empty, all-agrees-delete_row p t tapes bs)
  | inr (u, full) ↦
      ground (arith, full, find_tape-delete_row t u tapes, all-agrees-delete_row p t tapes bs)
]

module _ (db : Catalog) (lib : ℕ) (r : Tape) (row : find_tape r.id db.tapes ≡ some r)
    (home : r.library_id ≡ lib) (v : IsValid db) where
  deleted_slots : held r.id (clear_tape lib r.id db.slots) ≡ 0
  deleted_slots =
      held-clear_tape_self slot_place lib r.id r db.tapes db.slots row home (λ l n h. ground arith)
        v.slots_agree

  deleted_drives : held r.id (clear_tape lib r.id db.drives) ≡ 0
  deleted_drives =
      held-clear_tape_self drive_place lib r.id r db.tapes db.drives row home
        (λ l n h. ground arith) v.drives_agree

  delete_rows_of-IsValid : IsValid (delete_rows_of lib r.id db)
  unfolding delete_rows_of
  delete_rows_of-IsValid = record {
    slot_keys = clear_tape-UniqueKeys lib r.id db.slots v.slot_keys;
    drive_keys = clear_tape-UniqueKeys lib r.id db.drives v.drive_keys;
    tape_ids = delete_row-UniqueIds r.id db.tapes v.tape_ids;
    single = λ u. omega (
      arith,
      v.single u,
      held-clear_tape u lib r.id db.slots,
      held-clear_tape u lib r.id db.drives,
    );
    slots_agree =
        all-agrees-delete_row slot_place r.id db.tapes _ deleted_slots
          (all-agrees-clear_tape slot_place lib r.id db.tapes db.slots v.slots_agree);
    drives_agree =
        all-agrees-delete_row drive_place r.id db.tapes _ deleted_drives
          (all-agrees-clear_tape drive_place lib r.id db.tapes db.drives v.drives_agree);
  }

  -- A deleted tape is in no place.
  pub places-delete_rows_of : places r.id (delete_rows_of lib r.id db) ≡ 0
  unfolding places delete_rows_of
  places-delete_rows_of =
      ground (
        arith,
        deleted_slots,
        deleted_drives,
        find_tape-delete_row r.id r.id db.tapes,
        ==_refl r.id,
      )

module _ {K : Type 0} (fs : Images K) where
  -- A deletion keeps the catalog valid, also when the image file cannot be removed.
  pub delete_tape-KeepsValid :
      (library name : Text) → KeepsValid (delete_tape_in_library fs library name)
  unfolding delete_tape_in_library
  delete_tape-KeepsValid library name w v =
      continue-KeepsValid _
        (λ lib w v. elim (Option-cases (find_named lib name w.db.tapes)) [
          | inl missing ↦ rw missing v
          | inr (r, named) ↦
              let (row, home, same) = find_named_sound lib name w.db.tapes r v.tape_ids named in
              rw named (delete_rows_of-IsValid w.db lib r row home v)
        ])
        (resolve_library_id w.db library) w v
