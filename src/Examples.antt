-- ===== src/Examples.antt =====
-- Concrete catalogs, runs of the code on them, and each theorem at one of them.
mod Robot
mod Views
mod Kernel
mod Storage
mod Media
mod Offline
mod Auth
mod Reload
mod Libraries
mod Tapes
mod Tags
mod Operands
mod Display
use vtladm.Prelude.{ℕ, Text, Bool, true, false, List, [], ◌∷◌, Option, none, some, codes}
use vtladm.Catalog.{Catalog, Library, Shelf, offline_library_name, default_unused_shelf_name}
use vtladm.Catalog.Bays.{Bay}
use vtladm.Catalog.Tapes.{Tape}

abbrev pub marstor : Text
marstor = codes "marstor"

abbrev tape : ℕ → ℕ → Option ℕ → Text → Option ℕ → Tape
tape id lib shelf name slot = record {
  id = id;
  library_id = lib;
  shelf_id = shelf;
  barcode = name;
  name = name;
  slot = slot;
  capacity_bytes = 1024;
  used_bytes = 0;
  image_path = name;
}

abbrev bay : {A : Type 0} → ℕ → ℕ → Option ℕ → A → Bay A
bay lib n t a = record { library_id = lib; number = n; tape_id = t; column = a }

-- Tape 1 in slot 0, tape 2 in drive 1, tape 3 on the shelf, of the library 1; nothing offline.
abbrev pub stocked : Catalog
stocked = record {
  libraries =
      record { id = 1; name = marstor } ∷ record { id = 2; name = offline_library_name } ∷ [];
  shelves =
      record { id = 1; library_id = 1; name = default_unused_shelf_name; is_default_unused = true }
      ∷ record {
        id = 2;
        library_id = 2;
        name = default_unused_shelf_name;
        is_default_unused = true;
      }
      ∷ [];
  tapes =
      tape 1 1 none (codes "t1") (some 0)
      ∷ tape 2 1 none (codes "t2") none
      ∷ tape 3 1 (some 1) (codes "t3") none
      ∷ [];
  slots =
      bay 1 0 (some 1) false
      ∷ bay 1 1 none false
      ∷ bay 1 2 none false
      ∷ bay 1 100 none true
      ∷ bay 1 101 none true
      ∷ [];
  drives = bay 1 0 none tt ∷ bay 1 1 (some 2) tt ∷ [];
  next_library = 3;
  next_shelf = 3;
  next_tape = 4;
}
