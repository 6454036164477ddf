-- ===== src/Examples/Display.antt =====
-- The display of a changer: from the catalog where the switch is off, and from a kernel that has one
-- tape elsewhere than the catalog.
use vtladm.Prelude.{ℕ, ◌≡◌, refl, false, true, [], ◌∷◌, codes, pos, inl}
use vtladm.Errors.{ok}
use vtladm.Catalog.Bays.{bay_at}
use vtladm.Elements.{data_slot}
use vtladm.Inventory.{KernelInventory}
use vtladm.Settings.{Settings, robot_sync_enabled}
use vtladm.Changer.{Device, done}
use vtladm.Display.{
  ChangerInventoryDisplay, from_db, slot_row, mail_row, drive_row, changer_inventory_display,
}
use vtladm.Display.Rows.{
  slot_key, drive_key, mail_key, row_at, ordered, data_bay, mail_bay, shown, catalog_row,
}
use vtladm.Display.Shown.{display_from_catalog}
use vtladm.Examples.{stocked}
use vtladm.Examples.Robot.{stocked-IsValid}
use vtladm.Examples.Kernel.{counting, all_on, start}

abbrev all_off : Settings
all_off = record all_on { conf_robot_sync = false }

display_from_catalog_example :
    (d : ChangerInventoryDisplay) × ((changer_inventory_display counting all_off 1 start).0 ≡ ok d)
    × (d.source ≡ from_db)
    × (ordered d ≡ true)
    × (row_at slot_key 0 d.data_slots
        ≡ shown (catalog_row slot_row stocked.tapes) (data_bay 1 0 stocked))
    × (row_at drive_key 0 d.drives
        ≡ shown (catalog_row drive_row stocked.tapes) (bay_at 1 0 stocked.drives))
    × (row_at mail_key 0 d.mailslots
        ≡ shown (catalog_row mail_row stocked.tapes) (mail_bay 1 0 stocked))
unfolding robot_sync_enabled
display_from_catalog_example =
    display_from_catalog counting all_off 1 0 start stocked-IsValid.slot_keys
      stocked-IsValid.drive_keys (inl refl)

-- The kernel has the tape t1 in the slot 2.
abbrev showing : Device ℕ
showing = record counting {
  get_inventory = λ i k. (
    done (record {
      count = pos 1;
      truncated = pos 0;
      items = record { element = pos 2; tape_name = codes "t1" } ∷ [];
    }),
    k,
  );
}

abbrev inventory : KernelInventory
inventory = record { locations = (codes "t1", data_slot 2) ∷ []; truncated = false }
