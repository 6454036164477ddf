-- ===== src/Examples/Robot.antt =====
-- The robot operations on the stocked catalog.
use vtladm.Prelude.{all, text_eq, ℕ, ◌≡◌, ◌≤◌, ◌+◌, refl, none, arith, codes}
use vtladm.Errors.{Result, ok, err}
use vtladm.Catalog.{Catalog, tape_in_drive, default_shelf_id}
use vtladm.Catalog.Bays.{bay_at, held}
use vtladm.Catalog.Tapes.{find_named, find_tape}
use vtladm.Robot.{
  load_rows, unload_rows, assign_one_tape_to_slot, shelf_place_rows, target_shelf, first_empty,
}
use vtladm.Robot.Valid.{IsValid, places}
use vtladm.Robot.Load.{load_rows_moves}
use vtladm.Robot.Unload.{unload_rows_moves}
use vtladm.Robot.Assign.{assign_moves}
use vtladm.Robot.Shelf.{shelf_place_moves}
use vtladm.Examples.{stocked}

stocked_single : (t : ℕ) → held t stocked.slots + held t stocked.drives ≤ 1
unfolding held
stocked_single t = ground arith

pub stocked-IsValid : IsValid stocked
unfolding bay_at find_tape all
stocked-IsValid = record {
  slot_keys = (refl, (refl, (refl, (refl, (refl, tt)))));
  drive_keys = (refl, (refl, tt));
  tape_ids = (refl, (refl, (refl, tt)));
  single = stocked_single;
  slots_agree = refl;
  drives_agree = refl;
}

abbrev moved : Result (ℕ × Catalog) → Catalog
moved (ok (t, db)) = db
moved (err e) = stocked

abbrev moved_to : Result (ℕ × ℕ × Catalog) → Catalog
moved_to (ok (t, n, db)) = db
moved_to (err e) = stocked

abbrev changed : Result Catalog → Catalog
changed (ok db) = db
changed (err e) = stocked

abbrev shelved_db : Catalog
shelved_db = changed (shelf_place_rows stocked 1 (codes "t1") none)

load_rows_moves_example :
    IsValid (moved (load_rows stocked 1 0 0))
    × (places 1 (moved (load_rows stocked 1 0 0)) ≡ places 1 stocked)
unfolding load_rows bay_at
load_rows_moves_example = load_rows_moves stocked 1 0 0 refl 1 stocked-IsValid refl

unload_rows_moves_example :
    IsValid (moved_to (unload_rows stocked 1 1))
    × (places 2 (moved_to (unload_rows stocked 1 1)) ≡ places 2 stocked)
unfolding unload_rows bay_at find_tape first_empty
unload_rows_moves_example = unload_rows_moves stocked 1 1 refl stocked-IsValid 2

assign_moves_example :
    IsValid (changed (assign_one_tape_to_slot stocked 1 (codes "t3") 2))
    × (places 3 (changed (assign_one_tape_to_slot stocked 1 (codes "t3") 2)) ≡ places 3 stocked)
unfolding assign_one_tape_to_slot bay_at find_tape find_named tape_in_drive text_eq
assign_moves_example = assign_moves stocked 1 2 (codes "t3") refl refl stocked-IsValid 3 refl

shelf_place_moves_example :
    IsValid shelved_db × (places 1 shelved_db ≡ 1) × (places 3 shelved_db ≡ places 3 stocked)
unfolding shelf_place_rows bay_at find_tape find_named tape_in_drive text_eq default_shelf_id
    target_shelf
shelf_place_moves_example =
    shelf_place_moves stocked 1 (codes "t1") none refl refl refl stocked-IsValid 3 (ground arith)
      refl
