-- ===== src/Import.antt =====
-- The transaction of `import_tape` in vtladm-rc/userspace/src/main.rs. The checks before it read
-- the file and the quota, and its length, the barcode and the path are arguments here.
pub mod Twice
use vtladm.Prelude.{
  ℕ, Text, Bool, true, false, ◌&&◌, ◌||◌, List, [], ◌∷◌, ◌++◌, ◌+◌, Option, none, some, ◌==◌,
  if◌then◌else◌, text_eq,
}
use vtladm.Errors.{Result, ok, err, ◌>>=◌, ◌>>◌, refuse, database_error}
use vtladm.Catalog.{Catalog}
use vtladm.Catalog.Bays.{Bay, set_bay}
use vtladm.Catalog.Tapes.{Tape, find_named, update_tape}

abbrev pub imported : ℕ → Text → Tape → Tape
imported slot dest r = record r { slot = some slot; shelf_id = none; image_path = dest }

-- UNIQUE(library_id, barcode).
unfoldable pub barcode_taken : ℕ → Text → List Tape → Bool
barcode_taken lib barcode [] = false
barcode_taken lib barcode (r ∷ rs) =
    r.library_id == lib && text_eq r.barcode barcode || barcode_taken lib barcode rs

-- The row that was there, or a new one: the tape's id, and the rows.
unfoldable pub import_row :
    Catalog → ℕ → ℕ → Text → Text → ℕ → Text → Option Tape → Result (ℕ × Catalog)
unfolding barcode_taken
import_row db lib slot name barcode bytes dest (some r) =
    ok (r.id, record db { tapes = update_tape r.id (imported slot dest) db.tapes })
import_row db lib slot name barcode bytes dest none = do
  refuse (barcode_taken lib barcode db.tapes) database_error
  ok (
    db.next_tape,
    record db {
      tapes =
          db.tapes
          ++ record {
            id = db.next_tape;
            library_id = lib;
            shelf_id = none;
            barcode = barcode;
            name = name;
            slot = some slot;
            capacity_bytes = bytes;
            used_bytes = bytes;
            image_path = dest;
          }
            ∷ [];
      next_tape = db.next_tape + 1;
    },
  )

unfoldable pub import_rows : Catalog → ℕ → ℕ → Text → Text → ℕ → Text → Result Catalog
unfolding import_row
import_rows db lib slot name barcode bytes dest = do
  p ← import_row db lib slot name barcode bytes dest (find_named lib name db.tapes)
  ok (record p.1 { slots = set_bay lib slot (some p.0) p.1.slots })
