-- ===== src/Pull/Drives.antt =====
-- The table `drives` under a pull.
use vtladm.Prelude.{
  ℕ, Text, ◌≡◌, refl, Bool, true, false, List, [], ◌∷◌, Option, none, some, Dict, insert, ℤ, arith,
  take, ◌∙◌,
}
use Prim.Native.Nat.{min}
use vtladm.Errors.{ok, >>=-eq-ok}
use vtladm.Catalog.{Catalog}
use vtladm.Catalog.Bays.{Bay, bay_at, content, clear_library}
use vtladm.Catalog.Tapes.{Tape, find_named}
use vtladm.Elements.{
  MediumLocation, data_slot, drive, mail_slot, from_element, from_element-ne-drive,
}
use vtladm.Inventory.{
  VtlInvItem, VtlInventoryIoctl, KernelInventory, add_item, add_items, snapshot_of_reply,
  cstr_to_string, clamp, inv_max_items,
}
use vtladm.Pull.{place_entry, place_all, apply_kernel_to_db, emptied}

abbrev is_drive : MediumLocation → Bool
is_drive (drive d) = true
is_drive _ = false

-- No entry of an inventory is in a drive.
abbrev pub NoDrive : Dict MediumLocation → Type 0
NoDrive [] = Unit {0}
NoDrive ((name, loc) ∷ m) = (is_drive loc ≡ false) × NoDrive m

insert-NoDrive :
    (name : Text) (loc : MediumLocation) (m : Dict MediumLocation)
    → is_drive loc ≡ false
    → NoDrive m
    → NoDrive (insert name loc m)
unfolding insert
insert-NoDrive name loc [] h d = (h, tt)
insert-NoDrive name loc ((j, l) ∷ m) h d = ground (arith, insert-NoDrive name loc m h d.1)

from_element_no_drive : (e : ℤ) (l : MediumLocation) → from_element e ≡ some l → is_drive l ≡ false
from_element_no_drive e (data_slot s) h = refl
from_element_no_drive e (drive d) h = absurd (from_element-ne-drive e d h)
from_element_no_drive e (mail_slot s) h = refl

add_item-NoDrive :
    (name : Text) (loc : Option MediumLocation) (m n : Dict MediumLocation)
    → ((l : MediumLocation) → loc ≡ some l → is_drive l ≡ false)
    → NoDrive m
    → add_item name loc m ≡ ok n
    → NoDrive n
unfolding add_item
add_item-NoDrive [] loc m n nd d h = ground arith
add_item-NoDrive (c ∷ s) none m n nd d h = ground arith
add_item-NoDrive (c ∷ s) (some l) m n nd d h =
    ground (arith, insert-NoDrive (c ∷ s) l m (nd l refl) d)

add_items-NoDrive :
    (items : List VtlInvItem) (m n : Dict MediumLocation)
    → NoDrive m
    → add_items items m ≡ ok n
    → NoDrive n
unfolding add_items
add_items-NoDrive [] m n d h = ground arith
add_items-NoDrive (item ∷ items) m n d h =
    let (a, e, k) =
      >>=-eq-ok (add_item (cstr_to_string item.tape_name) (from_element item.element) m) _ h in
    add_items-NoDrive items a n
      (add_item-NoDrive (cstr_to_string item.tape_name) (from_element item.element) m a
        (from_element_no_drive item.element) d e)
      k

clear_library-empty :
    (lib d : ℕ) (bs : List (Bay (Unit {0}))) → content (bay_at lib d (clear_library lib bs)) ≡ none
unfolding bay_at clear_library
clear_library-empty lib d [] = refl
clear_library-empty lib d (b ∷ bs) = ground (arith, clear_library-empty lib d bs)

place_entry-drives :
    (lib : ℕ) (o : Option Tape) (loc : MediumLocation) (n : ℕ) (db : Catalog)
    → is_drive loc ≡ false
    → (place_entry lib o loc n db).1.drives ≡ db.drives
unfolding place_entry
place_entry-drives lib none loc n db h = refl
place_entry-drives lib (some r) (data_slot s) n db h = refl
place_entry-drives lib (some r) (drive d) n db h = cc
place_entry-drives lib (some r) (mail_slot s) n db h = refl

place_all-drives :
    (lib : ℕ) (kernel : Dict MediumLocation) (p : ℕ × Catalog)
    → NoDrive kernel
    → (place_all lib kernel p).1.drives ≡ p.1.drives
unfolding place_all
place_all-drives lib [] p h = refl
place_all-drives lib ((name, loc) ∷ m) (n, db) h =
    place_all-drives lib m (place_entry lib (find_named lib name db.tapes) loc n db) h.1
    ∙ place_entry-drives lib (find_named lib name db.tapes) loc n db h.0

snapshot-NoDrive :
    (reply : VtlInventoryIoctl) {snap : KernelInventory}
    → snapshot_of_reply reply ≡ ok snap
    → NoDrive snap.locations
unfolding snapshot_of_reply
snapshot-NoDrive reply h =
    let (m, e, k) =
      >>=-eq-ok (add_items (take (min (clamp reply.count) inv_max_items) reply.items) []) _ h in
    ground (arith, add_items-NoDrive _ [] m tt e)

-- After a pull of any inventory that the kernel may report, every drive of the library is empty in
-- the catalog.
pub pull_empties_drives :
    (reply : VtlInventoryIoctl) (db : Catalog) (lib d : ℕ) {snap : KernelInventory}
    → snapshot_of_reply reply ≡ ok snap
    → content (bay_at lib d (apply_kernel_to_db db lib snap.locations).1.drives) ≡ none
unfolding apply_kernel_to_db
pull_empties_drives reply db lib d {snap} h =
    rw (place_all-drives lib snap.locations (0, emptied lib db) (snapshot-NoDrive reply h))
      (clear_library-empty lib d db.drives)
