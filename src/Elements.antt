-- ===== src/Elements.antt =====
-- SCSI element addresses of vtladm-rc/userspace/src/robot_sync.rs. The number in a location is an
-- `i32` that is never negative: it comes from an address or from a row of the catalog. It does not
-- wrap: the addresses in use lie far below 2^31.
use vtladm.Prelude.{
  ℕ, ◌≡◌, ◌≢◌, ◌≤◌, ◌<◌, ◌+◌, ◌-◌, ℤ, pos, negsuc, ltb, leb, ◌==◌, Bool, true, false, ◌&&◌, Option,
  none, some, if◌then◌else◌, arith,
}

-- `VTL_ELEM_DRIVE_BASE`, `VTL_ELEM_IE_BASE` and `MAILSLOT_OFFSET`.
abbrev pub elem_drive_base : ℕ
elem_drive_base = 1000

abbrev pub elem_ie_base : ℕ
elem_ie_base = 2000

abbrev pub mailslot_offset : ℕ
mailslot_offset = 100

pub data MediumLocation : Type 0 where
  data_slot drive mail_slot : ℕ → MediumLocation

-- The tests in the order of the code. A negative address fails them all.
unfoldable pub from_element : ℤ → Option MediumLocation
from_element (negsuc n) = none
from_element (pos elem) =
    if ltb elem elem_ie_base
    then some (data_slot elem)
    else if leb elem_drive_base elem && ltb elem elem_ie_base
    then some (drive (elem - elem_drive_base))
    else if leb elem_ie_base elem
    then some (mail_slot (mailslot_offset + (elem - elem_ie_base)))
    else none

-- The base comes first, so that the difference is never below 0.
unfoldable pub db_mailslot_to_element : ℕ → ℕ
db_mailslot_to_element db_slot_id = elem_ie_base + db_slot_id - mailslot_offset

unfoldable pub to_element : MediumLocation → ℕ
unfolding db_mailslot_to_element
to_element (data_slot s) = s
to_element (drive d) = elem_drive_base + d
to_element (mail_slot m) = db_mailslot_to_element m

-- `#[derive(PartialEq)]`.
abbrev pub location_eq : MediumLocation → MediumLocation → Bool
location_eq (data_slot a) (data_slot b) = a == b
location_eq (drive a) (drive b) = a == b
location_eq (mail_slot a) (mail_slot b) = a == b
location_eq _ _ = false

abbrev pub option_location_eq : Option MediumLocation → Option MediumLocation → Bool
option_location_eq none none = true
option_location_eq (some a) (some b) = location_eq a b
option_location_eq _ _ = false

pub option_location_eq_sound : (a b : Option MediumLocation) → option_location_eq a b ≡ true → a ≡ b
option_location_eq_sound a b h = ground arith

-- A data slot below 2000 and a mailslot from 100 on are read back from their addresses.
pub from_element-to_element :
    (s m : ℕ)
    → s < elem_ie_base
    → mailslot_offset ≤ m
    → (from_element (pos (to_element (data_slot s))) ≡ some (data_slot s))
      × (from_element (pos (to_element (mail_slot m))) ≡ some (mail_slot m))
unfolding from_element to_element
from_element-to_element s m h k = (ground arith, ground arith)

-- Every address that is accepted is read into a location with that address.
pub to_element-from_element :
    (e : ℤ) (l : MediumLocation) → from_element e ≡ some l → pos (to_element l) ≡ e
unfolding from_element to_element
to_element-from_element (negsuc e) l h = cc
to_element-from_element (pos e) l h = ground arith

-- No address at all is read as a drive: an address from 1000 to 1999 is taken for a data slot.
pub from_element-ne-drive : (e : ℤ) (d : ℕ) → from_element e ≢ some (drive d)
unfolding from_element
from_element-ne-drive (negsuc e) d = ground arith
from_element-ne-drive (pos e) d = ground arith
