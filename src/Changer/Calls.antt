-- ===== src/Changer/Calls.antt =====
-- The calls of vtladm-rc/userspace/src/robot_sync.rs on the device, and the evacuation of tapes
-- from the changer.
use vtladm.Prelude.{
  ℕ, Text, true, ◌&&◌, List, [], ◌∷◌, Option, none, some, ◌==◌, suc, if◌then◌else◌, Dict, lookup,
  contains_key,
}
use vtladm.Errors.{
  VtlError, Result, ok, err, IoError, enotty, enodev, einval, not_found, other, io_error,
  invalid_parameter, ioctl_unavailable,
}
use vtladm.Catalog.{Catalog}
use vtladm.Catalog.Bays.{is_some}
use vtladm.Catalog.Tapes.{Tape}
use vtladm.Geometry.{library_kernel_instance_index}
use vtladm.Inventory.{VtlInventoryIoctl, KernelInventory, snapshot_of_reply}
use vtladm.Elements.{MediumLocation, to_element, db_mailslot_to_element}
use vtladm.Robot.{first_empty}
use vtladm.Changer
use vtladm.Changer.{
  IoResult, done, failed, Device, VtlLoadReq, VtlUnloadReq, VtlSlotPlaceReq, VtlMoveReq,
  VtlElemRemoveReq, copy_name_field, copy_barcode_field,
}
use vtladm.Changer.World.{M, ◌>>=◌, pure, lift, query, attempt}

-- Other errors become io errors: the catalog's by `library_instance_i32`, the device's by
-- `VtlError::IoError`.
abbrev instance_or_io : Result ℕ → IoResult ℕ
instance_or_io (ok i) = done i
instance_or_io (err e) = failed other

-- `library_instance_i32`.
unfoldable pub library_instance_i32 : Catalog → ℕ → IoResult ℕ
library_instance_i32 db lib = instance_or_io (library_kernel_instance_index db lib)

abbrev pub io_result {ℓ} : {A : Type ℓ} → IoResult A → Result A
io_result (done a) = ok a
io_result (failed e) = err (io_error e)

-- `ENOTTY` and a missing device mean that the kernel has no such ioctl.
unfoldable pub map_ioctl_error : IoError → VtlError
map_ioctl_error enotty = invalid_parameter ioctl_unavailable
map_ioctl_error not_found = invalid_parameter ioctl_unavailable
map_ioctl_error e = io_error e

abbrev pub mapped {ℓ} : {A : Type ℓ} → IoResult A → Result A
mapped (done a) = ok a
mapped (failed e) = err (map_ioctl_error e)

-- `SELECT name FROM tapes WHERE library_id = lib AND shelf_id IS NOT NULL`.
unfoldable pub shelved_names : ℕ → List Tape → List Text
shelved_names lib [] = []
shelved_names lib (r ∷ rs) =
    if r.library_id == lib && is_some r.shelf_id
    then r.name ∷ shelved_names lib rs
    else shelved_names lib rs

abbrev pub tally : ℕ → Result (Unit {0}) → ℕ
tally n (ok u) = suc n
tally n (err e) = n

module _ {K : Type 0} (dev : Device K) where
  -- One ioctl with a request that may have failed to be built.
  abbrev send :
      {R : Type 0} → (R → K → IoResult (Unit {0}) × K) → IoResult R → K → IoResult (Unit {0}) × K
  send call (done r) k = call r k
  send call (failed e) k = (failed e, k)

  -- Run a call on the kernel of the world.
  abbrev on_kernel : {A : Type 0} → (Catalog → K → IoResult A × K) → M K A
  on_kernel call w =
      (io_result (call w.db w.kernel).0, record w { kernel = (call w.db w.kernel).1 })

  abbrev slot_place_req : Catalog → ℕ → ℕ → Text → Option Text → IoResult VtlSlotPlaceReq
  slot_place_req db lib slot name barcode = Changer.◌>>=◌ (library_instance_i32 db lib) λ i.
      Changer.◌>>=◌ (copy_name_field name) λ n.
        Changer.◌>>=◌ (copy_barcode_field barcode)
          λ b. done (record { instance_index = i; slot = slot; tape_name = n; barcode = b })

  unfoldable pub kernel_slot_place : ℕ → ℕ → Text → Option Text → M K (Unit {0})
  kernel_slot_place lib slot name barcode =
      on_kernel λ db. send dev.slot_place (slot_place_req db lib slot name barcode)

  abbrev load_req : Catalog → ℕ → ℕ → ℕ → Text → Option Text → IoResult VtlLoadReq
  load_req db lib slot drive name barcode = Changer.◌>>=◌ (library_instance_i32 db lib) λ i.
      Changer.◌>>=◌ (copy_name_field name) λ n. Changer.◌>>=◌ (copy_barcode_field barcode) λ b.
        done (record { instance_index = i; slot = slot; drive = drive; tape_name = n; barcode = b })

  unfoldable pub kernel_load : ℕ → ℕ → ℕ → Text → Option Text → M K (Unit {0})
  kernel_load lib slot drive name barcode =
      on_kernel λ db. send dev.load_tape (load_req db lib slot drive name barcode)

  unfoldable pub kernel_unload : ℕ → ℕ → ℕ → M K (Unit {0})
  kernel_unload lib drive slot = on_kernel λ db. send dev.unload_tape (
      Changer.◌>>=◌ (library_instance_i32 db lib)
        λ i. done (record { instance_index = i; drive = drive; slot = slot }))

  unfoldable pub kernel_move_medium : ℕ → ℕ → ℕ → M K (Unit {0})
  kernel_move_medium lib src dst = on_kernel λ db. send dev.move_medium (
      Changer.◌>>=◌ (library_instance_i32 db lib)
        λ i. done (record { instance_index = i; src = src; dst = dst }))

  unfoldable pub kernel_elem_remove : ℕ → ℕ → M K (Unit {0})
  kernel_elem_remove lib element = on_kernel λ db. send dev.elem_remove (
      Changer.◌>>=◌ (library_instance_i32 db lib)
        λ i. done (record { instance_index = i; element = element }))

  abbrev pub ask : IoResult ℕ → K → IoResult VtlInventoryIoctl × K
  ask (done i) k = dev.get_inventory i k
  ask (failed e) k = (failed e, k)

  abbrev pub parsed : Result VtlInventoryIoctl → Result KernelInventory
  parsed (ok reply) = snapshot_of_reply reply
  parsed (err e) = err e

  unfoldable pub kernel_inventory_snapshot : ℕ → M K KernelInventory
  kernel_inventory_snapshot lib w =
      let (reply, k) = ask (library_instance_i32 w.db lib) w.kernel in
      (parsed (mapped reply), record w { kernel = k })

  abbrev pub parked : VtlError → ℕ → ℕ → Option ℕ → M K (Unit {0})
  parked e lib element none = lift (err e)
  parked e lib element (some mail) = kernel_move_medium lib element (db_mailslot_to_element mail)

  -- A kernel without `ELEM_REMOVE` parks the tape in an empty mailslot.
  unfoldable pub park : VtlError → ℕ → ℕ → M K (Unit {0})
  park e lib element w = parked e lib element (first_empty true lib w.db.slots) w

  unfoldable pub removed : ℕ → ℕ → Result (Unit {0}) → M K (Unit {0})
  unfolding park
  removed lib element (ok u) = pure tt
  removed lib element (err (io_error enodev)) = pure tt
  removed lib element (err (io_error enotty)) = park (io_error enotty) lib element
  removed lib element (err (io_error einval)) = park (io_error einval) lib element
  removed lib element (err e) = lift (err e)

  unfoldable pub evacuate_element : ℕ → ℕ → M K (Unit {0})
  unfolding removed
  evacuate_element lib element = do
    r ← attempt (kernel_elem_remove lib element)
    removed lib element r

  abbrev pub evacuate_at : ℕ → Option MediumLocation → M K (Unit {0})
  evacuate_at lib none = pure tt
  evacuate_at lib (some loc) = evacuate_element lib (to_element loc)

  unfoldable pub evacuate_tape_from_changer : ℕ → Text → M K (Unit {0})
  evacuate_tape_from_changer lib name = do
    kernel ← kernel_inventory_snapshot lib
    evacuate_at lib (lookup name kernel.locations)

  -- The loop over the names of the shelved tapes.
  unfoldable pub evacuate_names : ℕ → Dict MediumLocation → List Text → ℕ → M K ℕ
  evacuate_names lib before [] n = pure n
  evacuate_names lib before (name ∷ names) n =
      let gone = attempt (evacuate_tape_from_changer lib name) >>= λ r.
      evacuate_names lib before names (tally n r) in
      let left = evacuate_names lib before names n in
      if contains_key name before then gone else left

  unfoldable pub evacuate_shelved_tapes_from_kernel : ℕ → M K ℕ
  unfolding evacuate_names shelved_names
  evacuate_shelved_tapes_from_kernel lib = do
    names ← query (λ db. ok (shelved_names lib db.tapes))
    before ← kernel_inventory_snapshot lib
    evacuate_names lib before.locations names 0
