-- ===== src/Changer.antt =====
-- The kernel's medium changer as vtladm-rc/userspace/src/robot_sync.rs reaches it: the requests of
-- the ioctls on /dev/vtl, and the calls that fill them in.
pub mod World
pub mod Calls
use vtladm.Prelude.{
  ℕ, Text, ◌+◌, ◌-◌, Bool, true, false, ◌&&◌, not, List, [], ◌∷◌, ◌++◌, Option, none, some, ◌==◌,
  ltb, leb, length, if◌then◌else◌, zero, suc,
}
use vtladm.Errors.{IoError, invalid_input, other}
use vtladm.Inventory.{VtlInventoryIoctl}
use vtladm.Elements.{MediumLocation}

pub data IoResult {ℓ} (A : Type ℓ) : Type ℓ where
  done : A → IoResult A
  failed : IoError → IoResult A

infixl 5 ◌>>=◌
abbrev pub ◌>>=◌ {ℓ κ} : {A : Type ℓ} {B : Type κ} → IoResult A → (A → IoResult B) → IoResult B
done a >>= f = f a
failed e >>= f = failed e

unfoldable pub zeros : ℕ → List ℕ
zeros zero = []
zeros (suc n) = 0 ∷ zeros n

-- The 64 bytes of a name: its own bytes, then NULs.
unfoldable pub copy_name_field : Text → IoResult (List ℕ)
unfolding zeros
copy_name_field name =
    if leb 64 (length name) then failed invalid_input else done (name ++ zeros (64 - length name))

-- The 16 bytes of a barcode. No barcode and an empty one leave the field at 0.
unfoldable pub copy_barcode_field : Option Text → IoResult (List ℕ)
unfolding zeros
copy_barcode_field none = done (zeros 16)
copy_barcode_field (some []) = done (zeros 16)
copy_barcode_field (some (c ∷ s)) =
    if leb 16 (length (c ∷ s))
    then failed invalid_input
    else done ((c ∷ s) ++ zeros (16 - length (c ∷ s)))

pub record VtlLoadReq : Type 0 where
  pub instance_index : ℕ
  pub slot : ℕ
  pub drive : ℕ
  pub tape_name : List ℕ
  pub barcode : List ℕ

pub record VtlUnloadReq : Type 0 where
  pub instance_index : ℕ
  pub drive : ℕ
  pub slot : ℕ

pub record VtlSlotPlaceReq : Type 0 where
  pub instance_index : ℕ
  pub slot : ℕ
  pub tape_name : List ℕ
  pub barcode : List ℕ

pub record VtlMoveReq : Type 0 where
  pub instance_index : ℕ
  pub src : ℕ
  pub dst : ℕ

pub record VtlElemRemoveReq : Type 0 where
  pub instance_index : ℕ
  pub element : ℕ

-- The device, with a state `K` of its own: each call is `ioctl_vtl` with one command. It may fail
-- in any way, also while it prepares the tape directory or opens /dev/vtl.
pub record Device (K : Type 0) : Type 0 where
  pub load_tape : VtlLoadReq → K → IoResult (Unit {0}) × K
  pub unload_tape : VtlUnloadReq → K → IoResult (Unit {0}) × K
  pub slot_place : VtlSlotPlaceReq → K → IoResult (Unit {0}) × K
  pub move_medium : VtlMoveReq → K → IoResult (Unit {0}) × K
  pub elem_remove : VtlElemRemoveReq → K → IoResult (Unit {0}) × K
  pub get_inventory : ℕ → K → IoResult VtlInventoryIoctl × K
