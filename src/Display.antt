-- ===== src/Display.antt =====
-- What the inventory command and the web pages show of a changer: `changer_inventory_display` of
-- vtladm-rc/userspace/src/robot_sync.rs.
pub mod Order
pub mod Rows
pub mod Shown
pub mod Found
pub mod Kernel
use vtladm.Prelude.{
  ℕ, Text, ◌-◌, Bool, true, false, ◌&&◌, not, List, [], ◌∷◌, Option, none, some, ◌==◌, leb,
  if◌then◌else◌, ℤ, pos, negsuc, Dict, lookup, insert, keep, map,
}
use vtladm.Errors.{Result, ok, err}
use vtladm.Catalog.{Catalog}
use vtladm.Catalog.Bays.{Bay}
use vtladm.Catalog.Tapes.{Tape, find_tape}
use vtladm.Elements.{MediumLocation, data_slot, drive, mail_slot, location_eq, mailslot_offset}
use vtladm.Inventory.{KernelInventory}
use vtladm.Settings.{Settings, robot_sync}
use vtladm.Changer.{Device}
use vtladm.Changer.World.{World, M, ◌>>=◌, pure, query, attempt, continue}
use vtladm.Changer.Calls.{kernel_inventory_snapshot}

-- `slot{n}`, `drive{n}` and `mail{n - MAILSLOT_OFFSET}`.
pub data Label : Type 0 where
  slot_label drive_label : ℕ → Label
  mail_label : ℤ → Label

pub record ChangerRow : Type 0 where
  pub label : Label
  pub tape_name : Option Text
  pub barcode : Option Text

pub data Source : Type 0 where
  from_db from_kernel : Source

pub record ChangerInventoryDisplay : Type 0 where
  pub source : Source
  pub data_slots : List ChangerRow
  pub drives : List ChangerRow
  pub mailslots : List ChangerRow

-- `id - MAILSLOT_OFFSET`, an `i32`.
unfoldable pub mail_number : ℕ → ℤ
mail_number n =
    if leb mailslot_offset n then pos (n - mailslot_offset) else negsuc (mailslot_offset - 1 - n)

abbrev pub slot_row : ℕ → Label
slot_row n = slot_label n

abbrev pub mail_row : ℕ → Label
mail_row n = mail_label (mail_number n)

abbrev pub drive_row : ℕ → Label
drive_row n = drive_label n

-- The name and the barcode of `LEFT JOIN tapes t ON tape_id = t.id`.
abbrev pub joined_row : Label → Option Tape → ChangerRow
joined_row label none = record { label = label; tape_name = none; barcode = none }
joined_row label (some r) = record {
  label = label;
  tape_name = some r.name;
  barcode = some r.barcode;
}

abbrev pub joined_tape : Option ℕ → List Tape → Option Tape
joined_tape none tapes = none
joined_tape (some t) tapes = find_tape t tapes

-- `tape_barcode_map`.
unfoldable pub tape_barcode_map : ℕ → List Tape → Dict Text → Dict Text
tape_barcode_map lib [] out = out
tape_barcode_map lib (r ∷ rs) out =
    if r.library_id == lib
    then tape_barcode_map lib rs (insert r.name r.barcode out)
    else tape_barcode_map lib rs out

abbrev or_else : Option Text → Option Text → Option Text
or_else (some t) o = some t
or_else none o = o

-- `by_slot`, `by_drive` and `by_mail` at one location: the last tape that was inserted there.
unfoldable pub tape_at : MediumLocation → Dict MediumLocation → Option Text
tape_at loc [] = none
tape_at loc ((name, l) ∷ m) =
    or_else (tape_at loc m) (if location_eq l loc then some name else none)

abbrev pub kernel_row : Label → Dict Text → Option Text → ChangerRow
kernel_row label barcodes none = record { label = label; tape_name = none; barcode = none }
kernel_row label barcodes (some t) = record {
  label = label;
  tape_name = some t;
  barcode = lookup t barcodes;
}

abbrev pub is_data : ℕ → Bay Bool → Bool
is_data lib b = b.library_id == lib && not b.column

abbrev pub is_mail : ℕ → Bay Bool → Bool
is_mail lib b = b.library_id == lib && b.column

abbrev pub is_drive : ℕ → Bay (Unit {0}) → Bool
is_drive lib b = b.library_id == lib

module _ {A : Type 0} where
  -- `ORDER BY`, on the number.
  unfoldable pub insert_bay : Bay A → List (Bay A) → List (Bay A)
  insert_bay b [] = b ∷ []
  insert_bay b (c ∷ cs) = if leb b.number c.number then b ∷ c ∷ cs else c ∷ insert_bay b cs

  unfoldable pub sort_bays : List (Bay A) → List (Bay A)
  unfolding insert_bay
  sort_bays [] = []
  sort_bays (b ∷ bs) = insert_bay b (sort_bays bs)

  unfoldable pub db_rows : (ℕ → Label) → List Tape → List (Bay A) → List ChangerRow
  db_rows label tapes [] = []
  db_rows label tapes (b ∷ bs) =
      joined_row (label b.number) (joined_tape b.tape_id tapes) ∷ db_rows label tapes bs

  unfoldable pub kernel_rows :
      (ℕ → Label)
      → (ℕ → MediumLocation)
      → Dict Text
      → Dict MediumLocation
      → List (Bay A)
      → List ChangerRow
  unfolding tape_at
  kernel_rows label place barcodes locations [] = []
  kernel_rows label place barcodes locations (b ∷ bs) =
      kernel_row (label b.number) barcodes (tape_at (place b.number) locations)
      ∷ kernel_rows label place barcodes locations bs

unfoldable pub changer_inventory_from_db : Catalog → ℕ → ChangerInventoryDisplay
unfolding db_rows sort_bays mail_number
changer_inventory_from_db db lib = record {
  source = from_db;
  data_slots = db_rows slot_row db.tapes (sort_bays (keep (is_data lib) db.slots));
  drives = db_rows drive_row db.tapes (sort_bays (keep (is_drive lib) db.drives));
  mailslots = db_rows mail_row db.tapes (sort_bays (keep (is_mail lib) db.slots));
}

-- The rows of the catalog's slots and drives, with the tapes that the kernel has there.
unfoldable pub display_of : Catalog → ℕ → Dict MediumLocation → ChangerInventoryDisplay
unfolding kernel_rows sort_bays mail_number tape_barcode_map
display_of db lib locations =
    let barcodes = tape_barcode_map lib db.tapes [] in
    record {
      source = from_kernel;
      data_slots =
          kernel_rows slot_row data_slot barcodes locations
            (sort_bays (keep (is_data lib) db.slots));
      drives =
          kernel_rows drive_row drive barcodes locations
            (sort_bays (keep (is_drive lib) db.drives));
      mailslots =
          kernel_rows mail_row mail_slot barcodes locations
            (sort_bays (keep (is_mail lib) db.slots));
    }

abbrev pub or_from_db : Catalog → ℕ → Result ChangerInventoryDisplay → ChangerInventoryDisplay
or_from_db db lib (ok d) = d
or_from_db db lib (err e) = changer_inventory_from_db db lib

module _ {K : Type 0} (dev : Device K) (s : Settings) where
  unfoldable pub changer_inventory_from_kernel : ℕ → M K ChangerInventoryDisplay
  unfolding display_of
  changer_inventory_from_kernel lib = kernel_inventory_snapshot dev lib >>= λ snap.
      query (λ db. ok (display_of db lib snap.locations))

  -- A kernel that does not answer is logged, and the catalog is shown.
  unfoldable pub changer_inventory_display : ℕ → M K ChangerInventoryDisplay
  unfolding changer_inventory_from_kernel changer_inventory_from_db
  changer_inventory_display lib =
      let kernel = attempt (changer_inventory_from_kernel lib) >>= λ r.
      query (λ db. ok (or_from_db db lib r)) in
      let catalog = query (λ db. ok (changer_inventory_from_db db lib)) in
      if robot_sync s then kernel else catalog
