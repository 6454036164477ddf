-- ===== src/Examples/Views.antt =====
-- The two views of the changer, their comparison, the pull and the geometry at concrete inputs.
use vtladm.Prelude.{
  ℕ, ◌≡◌, refl, false, List, [], ◌∷◌, some, arith, codes, pos, Dict, lookup, text_eq, keep,
}
use vtladm.Catalog.{Catalog, is_kernel_exported_library_name}
use vtladm.Catalog.Bays.{bay_at, content}
use vtladm.Elements.{MediumLocation, data_slot, drive}
use vtladm.Inventory.{VtlInventoryIoctl, KernelInventory}
use vtladm.Drift.{find_drifts}
use vtladm.Drift.Report.{item_of, drift_at, item_of-find_drifts}
use vtladm.Pull.{apply_kernel_to_db}
use vtladm.Pull.Places.{free_of, pull_fills_slot}
use vtladm.Catalog.Tapes.{find_named}
use vtladm.Geometry.{
  build_vtl_instances_kernel_spec, online_ids, is_shell, library_kernel_instance_index, segments,
  count_drives, count_data_slots, position, clamp, max_drives_per_lib, max_data_slots_per_lib,
  online_library_ids_for_kernel_sync,
}
use vtladm.Geometry.Order.{get_elem?, spec_at_instance}
use vtladm.Examples.{stocked, marstor}

-- The catalog and the kernel disagree on t1 and agree on t2; t3 is known to one side.
abbrev db_side : Dict MediumLocation
db_side = (codes "t2", drive 1) ∷ (codes "t1", data_slot 0) ∷ []

abbrev kernel_side : Dict MediumLocation
kernel_side = (codes "t3", data_slot 2) ∷ (codes "t1", data_slot 1) ∷ (codes "t2", drive 1) ∷ []

item_of-find_drifts_example :
    item_of (codes "t1") (find_drifts db_side kernel_side)
    ≡ drift_at (codes "t1") (some (data_slot 0)) (some (data_slot 1))
unfolding lookup text_eq
item_of-find_drifts_example = item_of-find_drifts (codes "t1") db_side kernel_side

-- The kernel reports the tape t2 in its drive 1.
abbrev reply : VtlInventoryIoctl
reply = record {
  count = pos 1;
  truncated = pos 0;
  items = record { element = pos 1001; tape_name = codes "t2" } ∷ [];
}

abbrev snapshot : KernelInventory
snapshot = record { locations = (codes "t2", data_slot 1001) ∷ []; truncated = false }

abbrev one_library : List (ℕ × ℕ)
one_library = (2, 3) ∷ []

spec_at_instance_example :
    get_elem? one_library 0
    ≡ some (
      clamp max_drives_per_lib (count_drives stocked 1),
      clamp max_data_slots_per_lib (count_data_slots stocked 1),
    )
unfolding build_vtl_instances_kernel_spec segments is_shell count_drives count_data_slots keep
    online_ids text_eq is_kernel_exported_library_name library_kernel_instance_index
    online_library_ids_for_kernel_sync position
spec_at_instance_example = spec_at_instance stocked 1 (omega arith) refl refl

-- A library without bays comes before the stocked one.
abbrev behind_shell : Catalog
behind_shell = record stocked {
  libraries = record { id = 7; name = codes "shell" } ∷ record { id = 1; name = marstor } ∷ [];
}

pull_fills_slot_example :
    content (bay_at 1 2 (apply_kernel_to_db stocked 1 kernel_side).1.slots) ≡ some 3
unfolding free_of find_named text_eq bay_at
pull_fills_slot_example =
    pull_fills_slot stocked 1 2 3 [] (codes "t3") (data_slot 2)
      ((codes "t1", data_slot 1) ∷ (codes "t2", drive 1) ∷ []) refl refl refl refl
