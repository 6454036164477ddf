-- ===== src/Robot/Valid.antt =====
-- The invariant of the catalog, and what one move of a tape does to it.
use vtladm.Prelude.{ℕ, ◌+◌, ◌≤◌, ◌≡◌, true, Option, none, some, all, if◌then◌else◌}
use vtladm.Catalog.{Catalog}
use vtladm.Catalog.Bays.{UniqueKeys, held, is_some}
use vtladm.Catalog.Tapes.{Tape, find_tape, UniqueIds}
use vtladm.Catalog.Agreement.{agrees, slot_place, drive_place}

-- No key of `slots`, `drives` or `tapes` stands in two rows, no tape lies in two places, and each
-- tape in a slot or drive has a row of that library that says so and names no shelf.
pub record IsValid (db : Catalog) : Type 0 where
  pub slot_keys : UniqueKeys db.slots
  pub drive_keys : UniqueKeys db.drives
  pub tape_ids : UniqueIds db.tapes
  pub single : (t : ℕ) → held t db.slots + held t db.drives ≤ 1
  pub slots_agree : all (agrees slot_place db.tapes) db.slots ≡ true
  pub drives_agree : all (agrees drive_place db.tapes) db.drives ≡ true

-- 1 if the row says that the tape is on a shelf.
abbrev pub shelved : Option Tape → ℕ
shelved none = 0
shelved (some r) = if is_some r.shelf_id then 1 else 0

-- In how many places the catalog puts a tape: slots, drives and shelves.
unfoldable pub places : ℕ → Catalog → ℕ
places t db = held t db.slots + held t db.drives + shelved (find_tape t db.tapes)
