-- ===== src/Display/Rows.antt =====
-- The rows that `changer_inventory_display` of vtladm-rc/userspace/src/robot_sync.rs builds: what
-- stands at a number, and in what order.
use vtladm.Prelude.{
  ℕ, Text, ◌+◌, ◌-◌, ◌≡◌, refl, arith, Bool, true, false, ◌&&◌, not, List, [], ◌∷◌, Option, none,
  some, ◌==◌, leb, ltb, if◌then◌else◌, pos, negsuc, Dict, map,
}
use vtladm.Catalog.{Catalog}
use vtladm.Catalog.Bays.{Bay, bay_at}
use vtladm.Catalog.Tapes.{Tape, find_tape}
use vtladm.Elements.{MediumLocation}
use vtladm.Display.{
  Label, slot_label, drive_label, mail_label, ChangerRow, ChangerInventoryDisplay, mail_row,
  mail_number, joined_row, joined_tape, kernel_row, tape_at, db_rows, kernel_rows,
}
use vtladm.Display.Order.{bay_numbered, rising, restricted}

-- The number in the catalog that a label of one kind stands for.
abbrev pub slot_key : Label → Option ℕ
slot_key (slot_label n) = some n
slot_key (drive_label n) = none
slot_key (mail_label n) = none

abbrev pub drive_key : Label → Option ℕ
drive_key (slot_label n) = none
drive_key (drive_label n) = some n
drive_key (mail_label n) = none

-- `mail{m}` is the slot 100 + m.
abbrev pub mail_key : Label → Option ℕ
mail_key (slot_label n) = none
mail_key (drive_label n) = none
mail_key (mail_label (pos m)) = some (100 + m)
mail_key (mail_label (negsuc m)) = if ltb m 100 then some (99 - m) else none

pub mail_key-mail_row : (n : ℕ) → mail_key (mail_row n) ≡ some n
unfolding mail_number
mail_key-mail_row n = ground arith

abbrev from_on : ℕ → Option ℕ → Bool
from_on lo none = false
from_on lo (some n) = leb lo n

abbrev after : Option ℕ → ℕ
after none = 0
after (some n) = n + 1

abbrev is_number : ℕ → Option ℕ → Bool
is_number n none = false
is_number n (some m) = m == n

module _ (key : Label → Option ℕ) where
  -- All labels are of the kind, and their numbers ascend, none twice, from `lo` on.
  unfoldable pub ascending : ℕ → List ChangerRow → Bool
  ascending lo [] = true
  ascending lo (r ∷ rs) = from_on lo (key r.label) && ascending (after (key r.label)) rs

  -- The row that stands at a number.
  unfoldable pub row_at : ℕ → List ChangerRow → Option ChangerRow
  row_at n [] = none
  row_at n (r ∷ rs) = if is_number n (key r.label) then some r else row_at n rs

-- The rows of the three kinds stand in the order of their numbers.
abbrev pub ordered : ChangerInventoryDisplay → Bool
ordered d =
    ascending slot_key 0 d.data_slots
    && (ascending drive_key 0 d.drives && ascending mail_key 0 d.mailslots)

-- The row of the catalog for a data slot and for a mail slot, if there is one.
abbrev pub data_bay : ℕ → ℕ → Catalog → Option (Bay Bool)
data_bay lib n db = restricted (λ b. not b.column) (bay_at lib n db.slots)

abbrev pub mail_bay : ℕ → ℕ → Catalog → Option (Bay Bool)
mail_bay lib n db = restricted (λ b. b.column) (bay_at lib n db.slots)

abbrev pub name_of : Option Tape → Option Text
name_of none = none
name_of (some r) = some r.name

abbrev pub barcode_of : Option Tape → Option Text
barcode_of none = none
barcode_of (some r) = some r.barcode

abbrev pub tape_in : Option ℕ → List Tape → Option Tape
tape_in none tapes = none
tape_in (some t) tapes = find_tape t tapes

joined_row-catalog :
    (label : Label) (o : Option Tape)
    → joined_row label o ≡ record { label = label; tape_name = name_of o; barcode = barcode_of o }
joined_row-catalog label none = refl
joined_row-catalog label (some r) = refl

joined_tape-tape_in : (o : Option ℕ) (tapes : List Tape) → joined_tape o tapes ≡ tape_in o tapes
joined_tape-tape_in none tapes = refl
joined_tape-tape_in (some t) tapes = refl

module _ {A : Type 0} where
  abbrev pub shown : (Bay A → ChangerRow) → Option (Bay A) → Option ChangerRow
  shown f none = none
  shown f (some b) = some (f b)

  -- The row with the name and the barcode of the tape that the catalog has there.
  abbrev pub catalog_row : (ℕ → Label) → List Tape → Bay A → ChangerRow
  catalog_row label tapes b = record {
    label = label b.number;
    tape_name = name_of (tape_in b.tape_id tapes);
    barcode = barcode_of (tape_in b.tape_id tapes);
  }

  module _ (key : Label → Option ℕ) (f : Bay A → ChangerRow)
      (keyed : (b : Bay A) → key (f b).label ≡ some b.number) where
    pub row_at-map :
        (n : ℕ) (bs : List (Bay A)) → row_at key n (map f bs) ≡ shown f (bay_numbered n bs)
    unfolding row_at bay_numbered
    row_at-map n [] = refl
    row_at-map n (b ∷ bs) = rw (keyed b, row_at-map n bs) (ground arith)

    pub ascending-map : (lo : ℕ) (bs : List (Bay A)) → ascending key lo (map f bs) ≡ rising lo bs
    unfolding ascending rising
    ascending-map lo [] = refl
    ascending-map lo (b ∷ bs) = rw (keyed b, ascending-map (b.number + 1) bs) refl

  pub db_rows-map :
      (label : ℕ → Label) (tapes : List Tape) (bs : List (Bay A))
      → db_rows label tapes bs ≡ map (catalog_row label tapes) bs
  unfolding db_rows
  db_rows-map label tapes [] = refl
  db_rows-map label tapes (b ∷ bs) =
      rw
        (
          joined_row-catalog (label b.number) (joined_tape b.tape_id tapes),
          joined_tape-tape_in b.tape_id tapes,
          db_rows-map label tapes bs,
        )
        refl

  -- The row of a bay after the inventory of the kernel.
  abbrev pub found_row :
      (ℕ → Label) → (ℕ → MediumLocation) → Dict Text → Dict MediumLocation → Bay A → ChangerRow
  found_row label place barcodes locations b =
      kernel_row (label b.number) barcodes (tape_at (place b.number) locations)

  pub kernel_rows-map :
      (label : ℕ → Label) (place : ℕ → MediumLocation) (barcodes : Dict Text)
      (locations : Dict MediumLocation) (bs : List (Bay A))
      → kernel_rows label place barcodes locations bs
        ≡ map (found_row label place barcodes locations) bs
  unfolding kernel_rows
  kernel_rows-map label place barcodes locations [] = refl
  kernel_rows-map label place barcodes locations (b ∷ bs) =
      rw (kernel_rows-map label place barcodes locations bs) refl

-- A row keeps its label, whatever lies there.
pub kernel_row-label :
    (l : Label) (barcodes : Dict Text) (o : Option Text) → (kernel_row l barcodes o).label ≡ l
kernel_row-label l barcodes none = refl
kernel_row-label l barcodes (some t) = refl
