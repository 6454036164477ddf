-- ===== src/Display/Kernel.antt =====
-- What `changer_inventory_display` of vtladm-rc/userspace/src/robot_sync.rs shows from the inventory
-- of the kernel.
use vtladm.Prelude.{ℕ, Text, Bool, [], Dict}
use vtladm.Catalog.{Catalog}
use vtladm.Catalog.Bays.{Bay, UniqueKeys}
use vtladm.Elements.{MediumLocation, data_slot, drive, mail_slot}
use vtladm.Settings.{Settings}
use vtladm.Changer.World.{World}
use vtladm.Display.{
  ChangerRow, ChangerInventoryDisplay, slot_row, mail_row, drive_row, tape_barcode_map, display_of,
}
use vtladm.Display.Rows.{found_row}

module _ (lib : ℕ) (db : Catalog) (locations : Dict MediumLocation)
    (slot_keys : UniqueKeys db.slots) (drive_keys : UniqueKeys db.drives) where
  abbrev barcodes : Dict Text
  barcodes = tape_barcode_map lib db.tapes []

  abbrev at_slot : Bay Bool → ChangerRow
  at_slot = found_row slot_row data_slot barcodes locations

  abbrev at_mail : Bay Bool → ChangerRow
  at_mail = found_row mail_row mail_slot barcodes locations

  abbrev at_drive : Bay (Unit {0}) → ChangerRow
  at_drive = found_row drive_row drive barcodes locations

  abbrev d : ChangerInventoryDisplay
  d = display_of db lib locations
