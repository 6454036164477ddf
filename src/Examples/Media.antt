-- ===== src/Examples/Media.antt =====
-- Deleting a tape and making it blank, on a disk of one file.
use vtladm.Prelude.{ℕ, ◌≡◌, refl, List, [], ◌∷◌, none, some, codes, length, text_eq}
use vtladm.Catalog.{resolve_library_id, find_library, tape_in_drive}
use vtladm.Catalog.Bays.{any_holds}
use vtladm.Catalog.Tapes.{Tape, find_named, find_tape}
use vtladm.Robot.Valid.{IsValid}
use vtladm.Changer.{done}
use vtladm.Changer.World.{World}
use vtladm.Media.{
  Images, check_init, init_tape_in_library, delete_tape_in_library, blank_rows, blank_tape,
}
use vtladm.Media.Delete.{delete_tape-KeepsValid}
use vtladm.Media.Blank.{resize, init_tape_keeps_content}
use vtladm.Examples.{stocked, marstor}
use vtladm.Examples.Robot.{stocked-IsValid}

abbrev one_file : Images (List ℕ)
one_file = record {
  remove_file = λ path k. (done tt, []);
  open_write = λ path k. (done tt, k);
  length_of = λ path k. done (length k);
  set_len = λ path n k. (done tt, resize n k);
  sync_all = λ path k. (done tt, k);
}

-- Two bytes on a tape of two bytes.
abbrev small : Tape
small = record {
  id = 3;
  library_id = 1;
  shelf_id = some 1;
  barcode = codes "t3";
  name = codes "t3";
  slot = none;
  capacity_bytes = 2;
  used_bytes = 2;
  image_path = codes "t3";
}

abbrev written : World (List ℕ)
written = record { db = record stocked { tapes = small ∷ [] }; kernel = 7 ∷ 8 ∷ [] }

init_tape_keeps_content_example :
    (init_tape_in_library one_file marstor (codes "t3") written).1.kernel ≡ 7 ∷ 8 ∷ []
unfolding resolve_library_id find_library text_eq check_init find_named tape_in_drive any_holds
    init_tape_in_library blank_tape blank_rows find_tape
init_tape_keeps_content_example =
    init_tape_keeps_content one_file (λ path k. k) (λ path k. refl) (λ path n k h. refl)
      (λ path k. refl) marstor (codes "t3") 1 small written refl refl refl refl

abbrev full : World (List ℕ)
full = record { db = stocked; kernel = 7 ∷ 8 ∷ [] }

delete_tape-KeepsValid_example :
    IsValid (delete_tape_in_library one_file marstor (codes "t2") full).1.db
delete_tape-KeepsValid_example =
    delete_tape-KeepsValid one_file marstor (codes "t2") full stocked-IsValid
