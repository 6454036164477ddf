-- ===== src/Handlers/Moves.antt =====
-- What unload, eject, assign-slot and shelf place answer, as far as the catalog decides it.
use vtladm.Prelude.{ℕ, Text, ◌≡◌, refl, ◌∙◌, Option, some}
use vtladm.Errors.{Result, ok, err}
use vtladm.Catalog.{Catalog, resolve_library_id}
use vtladm.Catalog.Tapes.{Tape, find_tape, find_named}
use vtladm.Robot.{unload_rows, eject_rows, assign_one_tape_to_slot, shelf_place_rows}
use vtladm.Elements.{db_mailslot_to_element}
use vtladm.Settings.{Settings}
use vtladm.Changer.{Device}
use vtladm.Changer.World.{World, M, ◌>>◌, pure, continue}
use vtladm.Changer.Calls.{
  kernel_unload, kernel_move_medium, kernel_slot_place, evacuate_tape_from_changer,
}
use vtladm.Align.Keeps.{KeepsDb, keeps-kernel_move_medium, keeps-evacuate_tape}
use vtladm.Handlers.{
  unload_tape, eject_tape, assign_tape_to_slot, shelf_place_tape, follow_up, barcode_of,
}
use vtladm.Handlers.Outcome.{Follows, Follows-follow_up}

module _ {K : Type 0} where
  -- A result that is returned after something that cannot fail.
  returned :
      (n : ℕ) (r : Result (Unit {0})) (v : World K)
      → r ≡ ok tt
      → ((continue (λ _. pure n) r v).0 ≡ ok n) × ((continue (λ _. pure n) r v).1.db ≡ v.db)
  returned n (ok u) v h = (refl, refl)
  returned n (err e) v h = cc h

  Follows-pure :
      (m : M K (Unit {0})) (n : ℕ) (w : World K)
      → Follows m
      → (((m >> pure n) w).0 ≡ ok n) × (((m >> pure n) w).1.db ≡ w.db)
  Follows-pure m n w h = let (a, b) = returned n (m w).0 (m w).1 (h w).0 in (a, b ∙ (h w).1)

module _ {K : Type 0} (dev : Device K) (s : Settings) where
  keeps-kernel_unload : (lib drive slot : ℕ) → KeepsDb (kernel_unload dev lib drive slot)
  unfolding kernel_unload
  keeps-kernel_unload lib drive slot w = refl

  keeps-kernel_slot_place :
      (lib slot : ℕ) (name : Text) (bc : Option Text)
      → KeepsDb (kernel_slot_place dev lib slot name bc)
  unfolding kernel_slot_place
  keeps-kernel_slot_place lib slot name bc w = refl

  -- An unload that the catalog allows answers the slot of its transaction, and leaves the catalog
  -- that the transaction made, whatever the kernel answers.
  pub unload_tape_commits :
      (library : Text) (drive lib t target : ℕ) (after : Catalog) (r : Tape) (w : World K)
      → resolve_library_id w.db library ≡ ok lib
      → unload_rows w.db lib drive ≡ ok (t, target, after)
      → find_tape t after.tapes ≡ some r
      → ((unload_tape dev s library drive w).0 ≡ ok target)
        × ((unload_tape dev s library drive w).1.db ≡ after)
  unfolding unload_tape
  unload_tape_commits library drive lib t target after r w e1 e2 e3 =
      rw (e1, e2, e3)
        (Follows-pure (follow_up dev s lib (kernel_unload dev lib drive target)) target
          (record w { db = after })
          (Follows-follow_up dev s lib (kernel_unload dev lib drive target)
            (keeps-kernel_unload lib drive target)))

  -- An eject that the catalog allows answers the mailslot of its transaction, and leaves the
  -- catalog that the transaction made, whatever the kernel answers.
  pub eject_tape_commits :
      (library : Text) (slot lib t mail : ℕ) (after : Catalog) (r : Tape) (w : World K)
      → resolve_library_id w.db library ≡ ok lib
      → eject_rows w.db lib slot ≡ ok (t, mail, after)
      → find_tape t after.tapes ≡ some r
      → ((eject_tape dev s library slot w).0 ≡ ok mail)
        × ((eject_tape dev s library slot w).1.db ≡ after)
  unfolding eject_tape
  eject_tape_commits library slot lib t mail after r w e1 e2 e3 =
      rw (e1, e2, e3)
        (Follows-pure
          (follow_up dev s lib (kernel_move_medium dev lib slot (db_mailslot_to_element mail))) mail
          (record w { db = after })
          (Follows-follow_up dev s lib
            (kernel_move_medium dev lib slot (db_mailslot_to_element mail))
            (keeps-kernel_move_medium dev s lib slot (db_mailslot_to_element mail))))

  -- An assignment that the catalog allows succeeds, and leaves the catalog that the transaction
  -- made, whatever the kernel answers.
  pub assign_tape_to_slot_commits :
      (library name : Text) (slot lib : ℕ) (after : Catalog) (w : World K)
      → resolve_library_id w.db library ≡ ok lib
      → assign_one_tape_to_slot w.db lib name slot ≡ ok after
      → ((assign_tape_to_slot dev s library name slot w).0 ≡ ok tt)
        × ((assign_tape_to_slot dev s library name slot w).1.db ≡ after)
  unfolding assign_tape_to_slot
  assign_tape_to_slot_commits library name slot lib after w e1 e2 =
      rw (e1, e2)
        (Follows-follow_up dev s lib
          (kernel_slot_place dev lib slot name (barcode_of (find_named lib name after.tapes)))
          (keeps-kernel_slot_place lib slot name (barcode_of (find_named lib name after.tapes)))
          (record w { db = after }))

  -- A shelf placement that the catalog allows succeeds, and leaves the catalog that the transaction
  -- made, whatever the kernel answers.
  pub shelf_place_tape_commits :
      (library name : Text) (shelf : Option Text) (lib : ℕ) (after : Catalog) (w : World K)
      → resolve_library_id w.db library ≡ ok lib
      → shelf_place_rows w.db lib name shelf ≡ ok after
      → ((shelf_place_tape dev s library name shelf w).0 ≡ ok tt)
        × ((shelf_place_tape dev s library name shelf w).1.db ≡ after)
  unfolding shelf_place_tape
  shelf_place_tape_commits library name shelf lib after w e1 e2 =
      rw (e1, e2)
        (Follows-follow_up dev s lib (evacuate_tape_from_changer dev lib name)
          (keeps-evacuate_tape dev s lib name) (record w { db = after }))
