-- ===== src/Examples/Offline.antt =====
-- The offline storage beside a disk and a kernel that only count their calls.
use vtladm.Prelude.{ℕ, Text, ◌≡◌, refl, false, List, [], ◌∷◌, none, some, codes, suc, text_eq}
use vtladm.Errors.{Result, ok, err, tape_not_found}
use vtladm.Catalog.{Catalog, default_unused_shelf_name}
use vtladm.Catalog.Tapes.{Tape, find_named}
use vtladm.Robot.Valid.{IsValid}
use vtladm.Changer.{done}
use vtladm.Changer.World.{World}
use vtladm.Offline.{
  Files, move_tapes_to_offline_shelf, import_offline_tape_to_online_slot, check_fetch,
}
use vtladm.Offline.Failure.{import_offline-FailsSafe}
use vtladm.Offline.Batch.{Move, assign_tapes_to_slots_batch}
use vtladm.Offline.Whole.{move_to_offline-KeepsValid, assign_batch-KeepsValid}
use vtladm.Examples.{stocked, marstor}
use vtladm.Examples.Robot.{stocked-IsValid}
use vtladm.Examples.Kernel.{counting, all_on, start}

abbrev disk : Files ℕ
disk = record {
  exists = λ path k. false;
  create_dir_all = λ path k. (done tt, suc k);
  rename = λ old new k. (done tt, suc k);
}

abbrev tape_dir : Text
tape_dir = codes "/tapes"

-- The row of t3, which stands on a shelf of the library 1.
abbrev third : Tape
third = record {
  id = 3;
  library_id = 1;
  shelf_id = some 1;
  barcode = codes "t3";
  name = codes "t3";
  slot = none;
  capacity_bytes = 1024;
  used_bytes = 0;
  image_path = codes "t3";
}

abbrev stored_third : Result Catalog → Catalog
stored_third (ok db) = db
stored_third (err e) = stocked

-- The tape t2 is in a drive.
-- No tape is in the offline storage.
import_offline-FailsSafe_example :
    (import_offline_tape_to_online_slot disk tape_dir marstor 1 2 (codes "t1") 2 start).1.db
    ≡ stocked
unfolding import_offline_tape_to_online_slot check_fetch find_named text_eq
import_offline-FailsSafe_example =
    import_offline-FailsSafe disk tape_dir marstor 1 2 (codes "t1") 2 start
      (tape_not_found (codes "t1")) refl

abbrev two_names : List Text
two_names = codes "t3" ∷ codes "t2" ∷ []

abbrev moved : World ℕ
moved =
    (move_tapes_to_offline_shelf disk tape_dir marstor two_names default_unused_shelf_name start).1

move_to_offline-KeepsValid_example : IsValid moved.db
move_to_offline-KeepsValid_example =
    move_to_offline-KeepsValid disk tape_dir marstor two_names default_unused_shelf_name start
      stocked-IsValid

abbrev moves : List Move
moves = record { name = codes "t3"; slot = 2; from_offline = false } ∷ []

assign_batch-KeepsValid_example :
    IsValid (assign_tapes_to_slots_batch counting all_on disk tape_dir marstor moves start).1.db
assign_batch-KeepsValid_example =
    assign_batch-KeepsValid counting all_on disk tape_dir marstor moves start stocked-IsValid
