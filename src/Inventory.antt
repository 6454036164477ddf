-- ===== src/Inventory.antt =====
-- The two views of the medium changer in vtladm-rc/userspace/src/robot_sync.rs: the catalog's, from
-- its tables, and the kernel's, from the reply of the ioctl GET_INVENTORY.
use vtladm.Prelude.{
  ℕ, Text, Bool, false, ◌&&◌, not, List, [], ◌∷◌, Option, none, some, ◌==◌, take, if◌then◌else◌, ℤ,
  pos, negsuc, Dict, insert, contains_key,
}
use Prim.Native.Nat.{min}
use vtladm.Errors.{
  Result, ok, err, ◌>>=◌, refuse, invalid_parameter, duplicate_in_inventory, multiple_locations,
  inventory_truncated,
}
use vtladm.Catalog.{Catalog}
use vtladm.Catalog.Bays.{Bay}
use vtladm.Catalog.Tapes.{Tape, find_tape}
use vtladm.Elements.{MediumLocation, data_slot, drive, mail_slot, from_element}

-- `VTL_INV_MAX_ITEMS`, the length of the array in the reply.
abbrev pub inv_max_items : ℕ
inv_max_items = 128

pub record VtlInvItem : Type 0 where
  pub element : ℤ
  pub tape_name : List ℕ

-- The fields of `VtlInventoryIoctl` that are read.
pub record VtlInventoryIoctl : Type 0 where
  pub count : ℤ
  pub truncated : ℤ
  pub items : List VtlInvItem

pub record KernelInventory : Type 0 where
  pub locations : Dict MediumLocation
  pub truncated : Bool

-- The bytes before the first NUL. The names are UTF-8, so that nothing is replaced.
unfoldable pub cstr_to_string : List ℕ → Text
cstr_to_string [] = []
cstr_to_string (c ∷ cs) = if c == 0 then [] else c ∷ cstr_to_string cs

-- One round of the loop over the items, for the name and the location of the item.
unfoldable pub add_item :
    Text → Option MediumLocation → Dict MediumLocation → Result (Dict MediumLocation)
add_item [] loc locations = ok locations
add_item (c ∷ s) none locations = ok locations
add_item (c ∷ s) (some loc) locations =
    if contains_key (c ∷ s) locations
    then err (invalid_parameter duplicate_in_inventory)
    else ok (insert (c ∷ s) loc locations)

unfoldable pub add_items : List VtlInvItem → Dict MediumLocation → Result (Dict MediumLocation)
unfolding add_item
add_items [] locations = ok locations
add_items (item ∷ items) locations =
    add_item (cstr_to_string item.tape_name) (from_element item.element) locations
    >>= add_items items

abbrev pub clamp : ℤ → ℕ
clamp (pos n) = n
clamp (negsuc n) = 0

abbrev is_zero : ℤ → Bool
is_zero (pos n) = n == 0
is_zero (negsuc n) = false

-- `kernel_inventory_snapshot`, from the reply on.
unfoldable pub snapshot_of_reply : VtlInventoryIoctl → Result KernelInventory
unfolding add_items
snapshot_of_reply reply = do
  locations ← add_items (take (min (clamp reply.count) inv_max_items) reply.items) []
  ok (record { locations = locations; truncated = not (is_zero reply.truncated) })

unfoldable pub ensure_inventory_complete : KernelInventory → Result (Unit {0})
ensure_inventory_complete snap = refuse snap.truncated (invalid_parameter inventory_truncated)

-- One row of a query that joins `slots` or `drives` with `tapes`.
unfoldable pub add_row :
    Option Tape → MediumLocation → Dict MediumLocation → Result (Dict MediumLocation)
add_row none loc out = ok out
add_row (some r) loc out =
    if contains_key r.name out
    then err (invalid_parameter multiple_locations)
    else ok (insert r.name loc out)

abbrev pub joined : List Tape → Option ℕ → Option Tape
joined tapes none = none
joined tapes (some t) = find_tape t tapes

-- The loop over the rows of one query: those that pass the WHERE clause, with the tape joined.
unfoldable pub add_rows :
    {A : Type 0}
    → (Bay A → Bool)
    → (ℕ → MediumLocation)
    → List Tape
    → List (Bay A)
    → Dict MediumLocation
    → Result (Dict MediumLocation)
unfolding add_row
add_rows wanted at tapes [] out = ok out
add_rows wanted at tapes (b ∷ bs) out =
    (if wanted b then add_row (joined tapes b.tape_id) (at b.number) out else ok out)
    >>= add_rows wanted at tapes bs

abbrev pub is_data_slot : ℕ → Bay Bool → Bool
is_data_slot lib b = b.library_id == lib && not b.column

abbrev pub is_mail_slot : ℕ → Bay Bool → Bool
is_mail_slot lib b = b.library_id == lib && b.column

abbrev pub is_drive_of : ℕ → Bay (Unit {0}) → Bool
is_drive_of lib b = b.library_id == lib

unfoldable pub db_inventory : Catalog → ℕ → Result (Dict MediumLocation)
unfolding add_rows
db_inventory db lib = do
  in_slots ← add_rows (is_data_slot lib) data_slot db.tapes db.slots []
  in_drives ← add_rows (is_drive_of lib) drive db.tapes db.drives in_slots
  add_rows (is_mail_slot lib) mail_slot db.tapes db.slots in_drives
