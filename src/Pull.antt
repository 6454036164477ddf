-- ===== src/Pull.antt =====
-- The transactions of vtladm-rc/userspace/src/reconcile.rs that write the kernel's inventory into
-- the catalog.
pub mod Drives
pub mod Valid
pub mod Loop
pub mod Places
pub mod Whole
use vtladm.Prelude.{
  ℕ, Text, Bool, true, false, ◌||◌, ◌&&◌, List, [], ◌∷◌, Option, none, some, ◌==◌, suc, not,
  if◌then◌else◌, Dict,
}
use vtladm.Errors.{Result, ok, err, ◌>>=◌, ◌>>◌}
use vtladm.Catalog.{Catalog}
use vtladm.Catalog.Bays.{Bay, is_some, set_bay, clear_library, any_holds}
use vtladm.Catalog.Tapes.{Tape, find_named, update_tape, in_slot, in_drive}
use vtladm.Elements.{MediumLocation, data_slot, drive, mail_slot}

-- The two updates for a tape whose row was found.
unfoldable pub place_tape : ℕ → ℕ → MediumLocation → Catalog → Catalog
place_tape lib t (data_slot s) db = record db {
  slots = set_bay lib s (some t) db.slots;
  tapes = update_tape t (in_slot s) db.tapes;
}
place_tape lib t (drive d) db = record db {
  drives = set_bay lib d (some t) db.drives;
  tapes = update_tape t in_drive db.tapes;
}
place_tape lib t (mail_slot s) db = record db {
  slots = set_bay lib s (some t) db.slots;
  tapes = update_tape t (in_slot s) db.tapes;
}

-- One round of the loop: a name that the catalog does not know is skipped.
unfoldable pub place_entry : ℕ → Option Tape → MediumLocation → ℕ → Catalog → ℕ × Catalog
unfolding place_tape
place_entry lib none loc n db = (n, db)
place_entry lib (some r) loc n db = (suc n, place_tape lib r.id loc db)

unfoldable pub place_all : ℕ → Dict MediumLocation → ℕ × Catalog → ℕ × Catalog
unfolding place_entry
place_all lib [] (n, db) = (n, db)
place_all lib ((name, loc) ∷ kernel) (n, db) =
    place_all lib kernel (place_entry lib (find_named lib name db.tapes) loc n db)

-- `library_id = lib AND shelf_id IS NULL AND id NOT IN (…) AND id NOT IN (…)`.
abbrev pub is_orphan : ℕ → List (Bay Bool) → List (Bay (Unit {0})) → Tape → Bool
is_orphan lib slots drives r =
    r.library_id == lib
    && not (is_some r.shelf_id)
    && not (any_holds lib r.id slots)
    && not (any_holds lib r.id drives)

-- The last update: an orphan names no slot.
unfoldable pub clear_orphans : ℕ → List (Bay Bool) → List (Bay (Unit {0})) → List Tape → List Tape
clear_orphans lib slots drives [] = []
clear_orphans lib slots drives (r ∷ rs) =
    (if is_orphan lib slots drives r then record r { slot = none } else r)
    ∷ clear_orphans lib slots drives rs

abbrev pub emptied : ℕ → Catalog → Catalog
emptied lib db = record db {
  slots = clear_library lib db.slots;
  drives = clear_library lib db.drives;
}

abbrev pub without_orphans : ℕ → Catalog → Catalog
without_orphans lib db = record db { tapes = clear_orphans lib db.slots db.drives db.tapes }

-- How many tapes were placed, and the catalog.
unfoldable pub apply_kernel_to_db : Catalog → ℕ → Dict MediumLocation → ℕ × Catalog
unfolding place_all clear_orphans
apply_kernel_to_db db lib kernel =
    let (n, placed) = place_all lib kernel (0, emptied lib db) in (n, without_orphans lib placed)
