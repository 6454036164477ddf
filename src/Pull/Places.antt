-- ===== src/Pull/Places.antt =====
-- Where a pull puts the tapes that the kernel reports in slots.
use vtladm.Prelude.{
  ℕ, Text, ◌≡◌, refl, ap, arith, ◌∙◌, Bool, true, false, ◌&&◌, not, List, [], ◌∷◌, ◌++◌, Option,
  none, some, Dict,
}
use vtladm.Catalog.{Catalog}
use vtladm.Catalog.Bays.{
  Bay, is_some, is_held, content, bay_at, set_bay, clear_library, bay_at-set_bay_other,
}
use vtladm.Catalog.Tapes.{Tape, find_named, update_tape, in_slot, in_drive}
use vtladm.Elements.{MediumLocation, data_slot, drive, mail_slot}
use vtladm.Pull.{place_tape, place_entry, place_all, apply_kernel_to_db, emptied}

-- The slot that a location is, of either kind.
abbrev pub slot_number : MediumLocation → Option ℕ
slot_number (data_slot s) = some s
slot_number (drive d) = none
slot_number (mail_slot s) = some s

-- No entry is at the slot.
unfoldable pub free_of : ℕ → Dict MediumLocation → Bool
free_of s [] = true
free_of s ((name, loc) ∷ m) = not (is_held s (slot_number loc)) && free_of s m

module _ {A : Type 0} where
  exists-set_bay :
      (l n lib s : ℕ) (v : Option ℕ) (bs : List (Bay A))
      → is_some (bay_at lib s (set_bay l n v bs)) ≡ is_some (bay_at lib s bs)
  unfolding bay_at set_bay
  exists-set_bay l n lib s v [] = refl
  exists-set_bay l n lib s v (b ∷ bs) = ground (arith, exists-set_bay l n lib s v bs)

  exists-clear_library :
      (l lib s : ℕ) (bs : List (Bay A))
      → is_some (bay_at lib s (clear_library l bs)) ≡ is_some (bay_at lib s bs)
  unfolding bay_at clear_library
  exists-clear_library l lib s [] = refl
  exists-clear_library l lib s (b ∷ bs) = ground (arith, exists-clear_library l lib s bs)

  content-set_bay :
      (lib s t : ℕ) (bs : List (Bay A))
      → is_some (bay_at lib s bs) ≡ true
      → content (bay_at lib s (set_bay lib s (some t) bs)) ≡ some t
  unfolding bay_at set_bay
  content-set_bay lib s t [] h = cc h
  content-set_bay lib s t (b ∷ bs) h = ground (arith, content-set_bay lib s t bs)

content-clear_library :
    {A : Type 0} (lib s : ℕ) (bs : List (Bay A))
    → content (bay_at lib s (clear_library lib bs)) ≡ none
unfolding bay_at clear_library
content-clear_library lib s [] = refl
content-clear_library lib s (b ∷ bs) = ground (arith, content-clear_library lib s bs)

abbrev pub id_of : Option Tape → Option ℕ
id_of none = none
id_of (some r) = some r.id

-- An update that keeps ids, names and libraries moves no name.
id_of-update_tape :
    (lib : ℕ) (name : Text) (t : ℕ) (f : Tape → Tape) (rs : List Tape)
    → ((r : Tape) → (f r).id ≡ r.id)
    → ((r : Tape) → (f r).name ≡ r.name)
    → ((r : Tape) → (f r).library_id ≡ r.library_id)
    → id_of (find_named lib name (update_tape t f rs)) ≡ id_of (find_named lib name rs)
unfolding find_named update_tape
id_of-update_tape lib name t f [] i n l = refl
id_of-update_tape lib name t f (r ∷ rs) i n l =
    ground (arith, i r, n r, l r, id_of-update_tape lib name t f rs i n l)

-- A row, or none, with the id that the name had before.
id_of-place_entry :
    (lib : ℕ) (name : Text) (o : Option Tape) (loc : MediumLocation) (n : ℕ) (db : Catalog)
    → id_of (find_named lib name (place_entry lib o loc n db).1.tapes)
      ≡ id_of (find_named lib name db.tapes)
unfolding place_entry place_tape
id_of-place_entry lib name none loc n db = refl
id_of-place_entry lib name (some r) (data_slot s) n db =
    id_of-update_tape lib name r.id (in_slot s) db.tapes (λ x. refl) (λ x. refl) (λ x. refl)
id_of-place_entry lib name (some r) (drive d) n db =
    id_of-update_tape lib name r.id in_drive db.tapes (λ x. refl) (λ x. refl) (λ x. refl)
id_of-place_entry lib name (some r) (mail_slot s) n db =
    id_of-update_tape lib name r.id (in_slot s) db.tapes (λ x. refl) (λ x. refl) (λ x. refl)

exists-place_entry :
    (lib s : ℕ) (o : Option Tape) (loc : MediumLocation) (n : ℕ) (db : Catalog)
    → is_some (bay_at lib s (place_entry lib o loc n db).1.slots) ≡ is_some (bay_at lib s db.slots)
unfolding place_entry place_tape
exists-place_entry lib s none loc n db = refl
exists-place_entry lib s (some r) (data_slot k) n db =
    exists-set_bay lib k lib s (some r.id) db.slots
exists-place_entry lib s (some r) (drive d) n db = refl
exists-place_entry lib s (some r) (mail_slot k) n db =
    exists-set_bay lib k lib s (some r.id) db.slots

-- An entry elsewhere leaves the slot.
place_entry_elsewhere :
    (lib s : ℕ) (o : Option Tape) (loc : MediumLocation) (n : ℕ) (db : Catalog)
    → is_held s (slot_number loc) ≡ false
    → bay_at lib s (place_entry lib o loc n db).1.slots ≡ bay_at lib s db.slots
unfolding place_entry place_tape
place_entry_elsewhere lib s none loc n db h = refl
place_entry_elsewhere lib s (some r) (data_slot k) n db h =
    bay_at-set_bay_other lib k (some r.id) lib s db.slots (ground (arith, h))
place_entry_elsewhere lib s (some r) (drive d) n db h = refl
place_entry_elsewhere lib s (some r) (mail_slot k) n db h =
    bay_at-set_bay_other lib k (some r.id) lib s db.slots (ground (arith, h))

place_all_elsewhere :
    (lib s : ℕ) (m : Dict MediumLocation) (p : ℕ × Catalog)
    → free_of s m ≡ true
    → bay_at lib s (place_all lib m p).1.slots ≡ bay_at lib s p.1.slots
unfolding place_all free_of
place_all_elsewhere lib s [] p h = refl
place_all_elsewhere lib s ((name, loc) ∷ m) (n, db) h =
    place_all_elsewhere lib s m (place_entry lib (find_named lib name db.tapes) loc n db)
      (ground (arith, h))
    ∙ place_entry_elsewhere lib s (find_named lib name db.tapes) loc n db (ground (arith, h))

-- The entry itself.
place_entry_here :
    (lib s : ℕ) (o : Option Tape) (t : ℕ) (loc : MediumLocation) (n : ℕ) (db : Catalog)
    → slot_number loc ≡ some s
    → id_of o ≡ some t
    → is_some (bay_at lib s db.slots) ≡ true
    → content (bay_at lib s (place_entry lib o loc n db).1.slots) ≡ some t
unfolding place_entry place_tape
place_entry_here lib s none t loc n db at found there = cc found
place_entry_here lib s (some r) t (data_slot k) n db at found there =
    ground (arith, at, found, there, content-set_bay lib s r.id db.slots)
place_entry_here lib s (some r) t (drive d) n db at found there = cc at
place_entry_here lib s (some r) t (mail_slot k) n db at found there =
    ground (arith, at, found, there, content-set_bay lib s r.id db.slots)

place_all_here :
    (lib s t : ℕ) (before : Dict MediumLocation) (name : Text) (loc : MediumLocation)
    (later : Dict MediumLocation) (p : ℕ × Catalog)
    → slot_number loc ≡ some s
    → free_of s later ≡ true
    → id_of (find_named lib name p.1.tapes) ≡ some t
    → is_some (bay_at lib s p.1.slots) ≡ true
    → content (bay_at lib s (place_all lib (before ++ (name, loc) ∷ later) p).1.slots) ≡ some t
unfolding place_all
place_all_here lib s t [] name loc later (n, db) at free found there =
    ap content (
      place_all_elsewhere lib s later (place_entry lib (find_named lib name db.tapes) loc n db)
        free)
    ∙ place_entry_here lib s (find_named lib name db.tapes) t loc n db at found there
place_all_here lib s t ((other, l) ∷ before) name loc later (n, db) at free found there =
    let o = find_named lib other db.tapes in
    place_all_here lib s t before name loc later (place_entry lib o l n db) at free
      (id_of-place_entry lib name o l n db ∙ found) (exists-place_entry lib s o l n db ∙ there)

-- After a pull, a slot of the library holds the tape that the kernel's inventory puts there last,
-- when the catalog knows the tape's name.
pub pull_fills_slot :
    (db : Catalog) (lib s t : ℕ) (before : Dict MediumLocation) (name : Text) (loc : MediumLocation)
    (later : Dict MediumLocation)
    → slot_number loc ≡ some s
    → free_of s later ≡ true
    → id_of (find_named lib name db.tapes) ≡ some t
    → is_some (bay_at lib s db.slots) ≡ true
    → content (bay_at lib s (apply_kernel_to_db db lib (before ++ (name, loc) ∷ later)).1.slots)
      ≡ some t
unfolding apply_kernel_to_db
pull_fills_slot db lib s t before name loc later at free found there =
    place_all_here lib s t before name loc later (0, emptied lib db) at free found
      (exists-clear_library lib lib s db.slots ∙ there)

-- After a pull, a slot of the library that the kernel's inventory does not name is empty.
pub pull_empties_slot :
    (db : Catalog) (lib s : ℕ) (kernel : Dict MediumLocation)
    → free_of s kernel ≡ true
    → content (bay_at lib s (apply_kernel_to_db db lib kernel).1.slots) ≡ none
unfolding apply_kernel_to_db
pull_empties_slot db lib s kernel free =
    ap content (place_all_elsewhere lib s kernel (0, emptied lib db) free)
    ∙ content-clear_library lib s db.slots
