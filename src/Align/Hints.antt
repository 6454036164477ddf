-- ===== src/Align/Hints.antt =====
-- `mirror_kernel_catalog_hints_only`: the kernel's data slots become the slot numbers in `tapes`,
-- and the tables `slots` and `drives` are left alone.
use vtladm.Prelude.{ℕ, List, [], ◌∷◌, Option, none, some, ◌==◌, suc, if◌then◌else◌, Dict}
use vtladm.Catalog.{Catalog}
use vtladm.Catalog.Tapes.{Tape, find_named, update_tape, in_slot}
use vtladm.Elements.{MediumLocation, data_slot}

-- `UPDATE tapes SET slot = NULL WHERE library_id = lib`.
forget_slots : ℕ → List Tape → List Tape
forget_slots lib [] = []
forget_slots lib (r ∷ rs) =
    (if r.library_id == lib then record r { slot = none } else r) ∷ forget_slots lib rs

mirror_entry : Option Tape → MediumLocation → ℕ → List Tape → ℕ × List Tape
mirror_entry (some r) (data_slot s) n tapes = (suc n, update_tape r.id (in_slot s) tapes)
mirror_entry o loc n tapes = (n, tapes)

mirror_all : ℕ → Dict MediumLocation → ℕ × List Tape → ℕ × List Tape
unfolding mirror_entry
mirror_all lib [] p = p
mirror_all lib ((name, loc) ∷ kernel) (n, tapes) =
    mirror_all lib kernel (mirror_entry (find_named lib name tapes) loc n tapes)

abbrev with_tapes : Catalog → ℕ × List Tape → ℕ × Catalog
with_tapes db (n, tapes) = (n, record db { tapes = tapes })

unfoldable pub mirror_rows : Catalog → ℕ → Dict MediumLocation → ℕ × Catalog
unfolding mirror_all forget_slots
mirror_rows db lib kernel = with_tapes db (mirror_all lib kernel (0, forget_slots lib db.tapes))
