-- ===== src/Pull/Loop.antt =====
-- The invariant under a pull: the loop, the orphans and the whole transaction of
-- `apply_kernel_to_db`.
use vtladm.Prelude.{
  ℕ, Text, ◌≡◌, ◌≤◌, refl, Bool, true, false, List, [], ◌∷◌, Option, none, some, ◌==◌,
  if◌then◌else◌, Dict, contains_key, arith, text_eq, text_eq_sound, text_eq_sym, sym, ◌∙◌, inl, inr,
  Bool-cases, Option-cases, all,
}
use vtladm.Catalog.{Catalog}
use vtladm.Catalog.Bays.{Bay, held, holds, held-set_bay-le}
use vtladm.Catalog.Tapes.{
  Tape, find_tape, find_named, in_slot, in_drive, find_tape-update_tape, UniqueIds,
  find_named_sound,
}
use vtladm.Catalog.Agreement.{Place, id_agrees, agrees, slot_place, drive_place, held-any_holds}
use vtladm.Elements.{MediumLocation, data_slot, drive, mail_slot}
use vtladm.Robot.Valid.{IsValid}
use vtladm.Pull.{
  place_tape, place_entry, place_all, apply_kernel_to_db, emptied, clear_orphans, without_orphans,
  is_orphan,
}
use vtladm.Pull.Valid.{UniqueNames, Waiting, emptied-IsValid, emptied-Waiting, place_tape-IsValid}

-- What `place_tape` leaves of the other tapes.
place_tape_other :
    (lib t u : ℕ) (loc : MediumLocation) (db : Catalog)
    → IsValid db
    → (u == t) ≡ false
    → (find_tape u (place_tape lib t loc db).tapes ≡ find_tape u db.tapes)
      × (held u (place_tape lib t loc db).slots ≤ held u db.slots)
      × (held u (place_tape lib t loc db).drives ≤ held u db.drives)
unfolding place_tape
place_tape_other lib t u (data_slot s) db v h = ground (
  arith,
  find_tape-update_tape t (in_slot s) u db.tapes (λ x. refl),
  held-set_bay-le u lib s t db.slots v.slot_keys,
)
place_tape_other lib t u (drive d) db v h = ground (
  arith,
  find_tape-update_tape t in_drive u db.tapes (λ x. refl),
  held-set_bay-le u lib d t db.drives v.drive_keys,
)
place_tape_other lib t u (mail_slot s) db v h = ground (
  arith,
  find_tape-update_tape t (in_slot s) u db.tapes (λ x. refl),
  held-set_bay-le u lib s t db.slots v.slot_keys,
)

-- A tape keeps its name and its library.
abbrev SameName : Option Tape → Tape → Type 0
SameName none r = Unit {0}
SameName (some x) r = (x.name ≡ r.name) × (x.library_id ≡ r.library_id)

place_tape_self :
    (lib t : ℕ) (loc : MediumLocation) (db : Catalog) (r x : Tape)
    → find_tape t db.tapes ≡ some r
    → find_tape t (place_tape lib t loc db).tapes ≡ some x
    → x.name ≡ r.name
unfolding place_tape
place_tape_self lib t (data_slot s) db r x e h =
    ground (arith, find_tape-update_tape t (in_slot s) t db.tapes (λ x. refl))
place_tape_self lib t (drive d) db r x e h =
    ground (arith, find_tape-update_tape t in_drive t db.tapes (λ x. refl))
place_tape_self lib t (mail_slot s) db r x e h =
    ground (arith, find_tape-update_tape t (in_slot s) t db.tapes (λ x. refl))

module _ (lib : ℕ) (name : Text) (loc : MediumLocation) (m : Dict MediumLocation) (db : Catalog)
    (fresh : contains_key name m ≡ false) (v : IsValid db)
    (waiting : Waiting lib ((name, loc) ∷ m) db) where
  skipped-Waiting : Waiting lib m db
  unfolding contains_key
  skipped-Waiting u r row home named = waiting u r row home (ground arith)

  module _ (r : Tape) (found : find_named lib name db.tapes ≡ some r) where
    found_row :
        (find_tape r.id db.tapes ≡ some r) × (r.library_id ≡ lib) × (text_eq r.name name ≡ true)
    found_row = find_named_sound lib name db.tapes r v.tape_ids found

    found_named : contains_key r.name ((name, loc) ∷ m) ≡ true
    unfolding contains_key
    found_named = ground (arith, found_row, text_eq_sym r.name name)

    placed-IsValid : IsValid (place_tape lib r.id loc db)
    placed-IsValid =
        let (s, d) = waiting r.id r found_row.0 found_row.1 found_named in
        place_tape-IsValid db lib r.id r v found_row.0 found_row.1 s d loc

    placed-Waiting : Waiting lib m (place_tape lib r.id loc db)
    placed-Waiting u x row home named = elim (Bool-cases (u == r.id)) [
      | inl same ↦ absurd (
          ground (
            arith,
            fresh,
            found_row,
            place_tape_self lib r.id loc db r x found_row.0,
            text_eq_sound r.name name found_row.2,
            same,
          ))
      | inr other ↦
          let (rows, s, d) = place_tape_other lib r.id u loc db v other in
          let (no_slot, no_drive) = skipped-Waiting u x (sym rows ∙ row) home named in
          (omega (arith, s, no_slot), omega (arith, d, no_drive))
    ]

  entry-IsValid :
      (n : ℕ) (o : Option Tape)
      → find_named lib name db.tapes ≡ o
      → IsValid (place_entry lib o loc n db).1 × Waiting lib m (place_entry lib o loc n db).1
  unfolding place_entry
  entry-IsValid n none e = (v, skipped-Waiting)
  entry-IsValid n (some r) e = (placed-IsValid r e, placed-Waiting r e)

pub place_all-IsValid :
    (lib : ℕ) (kernel : Dict MediumLocation) (p : ℕ × Catalog)
    → UniqueNames kernel
    → IsValid p.1
    → Waiting lib kernel p.1
    → IsValid (place_all lib kernel p).1
unfolding place_all
place_all-IsValid lib [] p unique v waiting = v
place_all-IsValid lib ((name, loc) ∷ m) (n, db) unique v waiting =
    let (v', w') =
      entry-IsValid lib name loc m db unique.0 v waiting n (find_named lib name db.tapes) refl in
    place_all-IsValid lib m (place_entry lib (find_named lib name db.tapes) loc n db) unique.1 v' w'

module _ (lib : ℕ) (slots : List (Bay Bool)) (drives : List (Bay (Unit {0}))) where
  abbrev unbound : Option Tape → Option Tape
  unbound none = none
  unbound (some r) = some (if is_orphan lib slots drives r then record r { slot = none } else r)

  find_tape-clear_orphans :
      (u : ℕ) (rs : List Tape)
      → find_tape u (clear_orphans lib slots drives rs) ≡ unbound (find_tape u rs)
  unfolding find_tape clear_orphans
  find_tape-clear_orphans u [] = refl
  find_tape-clear_orphans u (r ∷ rs) = ground (arith, find_tape-clear_orphans u rs)

  clear_orphans-UniqueIds :
      (rs : List Tape) → UniqueIds rs → UniqueIds (clear_orphans lib slots drives rs)
  unfolding clear_orphans
  clear_orphans-UniqueIds [] u = tt
  clear_orphans-UniqueIds (r ∷ rs) u =
      ground (arith, find_tape-clear_orphans r.id rs, clear_orphans-UniqueIds rs u.1)

  id_agrees-clear_orphans :
      (q : Tape → Bool) (tapes : List Tape) (o : Option ℕ)
      → ((u : ℕ) (r : Tape)
          → find_tape u tapes ≡ some r
          → is_orphan lib slots drives r ≡ true
          → holds u o ≡ 0)
      → id_agrees q (clear_orphans lib slots drives tapes) o ≡ id_agrees q tapes o
  id_agrees-clear_orphans q tapes none free = refl
  id_agrees-clear_orphans q tapes (some u) free = elim (Option-cases (find_tape u tapes)) [
    | inl e ↦ ground (arith, find_tape-clear_orphans u tapes, e)
    | inr (r, e) ↦ ground (arith, find_tape-clear_orphans u tapes, e, free u r e)
  ]

  -- A tape that some bay of its library holds is no orphan.
  all-agrees-clear_orphans :
      {A : Type 0} (p : Place) (tapes : List Tape) (bs : List (Bay A))
      → ((u : ℕ) (r : Tape)
          → find_tape u tapes ≡ some r
          → is_orphan lib slots drives r ≡ true
          → held u bs ≡ 0)
      → all (agrees p tapes) bs ≡ true
      → all (agrees p (clear_orphans lib slots drives tapes)) bs ≡ true
  unfolding all held
  all-agrees-clear_orphans p tapes [] free h = refl
  all-agrees-clear_orphans p tapes (b ∷ bs) free h =
      let here =
        id_agrees-clear_orphans (p b.library_id b.number) tapes b.tape_id
          (λ u r e o. omega (arith, free u r e o)) in
      let there = all-agrees-clear_orphans p tapes bs (λ u r e o. omega (arith, free u r e o)) in
      ground (arith, here, there)

find_tape_id : (u : ℕ) (rs : List Tape) (r : Tape) → find_tape u rs ≡ some r → r.id ≡ u
unfolding find_tape
find_tape_id u [] r h = cc
find_tape_id u (x ∷ rs) r h = ground (arith, find_tape_id u rs r)

module _ (db : Catalog) (lib : ℕ) (v : IsValid db) where
  orphan_free :
      (u : ℕ) (r : Tape)
      → find_tape u db.tapes ≡ some r
      → is_orphan lib db.slots db.drives r ≡ true
      → (held u db.slots ≡ 0) × (held u db.drives ≡ 0)
  orphan_free u r e h =
      let id = find_tape_id u db.tapes r e in
      let home : r.library_id ≡ lib = ground arith in
      (
        held-any_holds slot_place lib u r db.tapes db.slots e home (λ l n k. ground arith)
            v.slots_agree (ground (arith, id, h)),
        held-any_holds drive_place lib u r db.tapes db.drives e home (λ l n k. ground arith)
            v.drives_agree (ground (arith, id, h)),
      )

  without_orphans-IsValid : IsValid (without_orphans lib db)
  without_orphans-IsValid = record {
    slot_keys = v.slot_keys;
    drive_keys = v.drive_keys;
    tape_ids = clear_orphans-UniqueIds lib db.slots db.drives db.tapes v.tape_ids;
    single = v.single;
    slots_agree =
        all-agrees-clear_orphans lib db.slots db.drives slot_place db.tapes db.slots
          (λ u r e h. (orphan_free u r e h).0) v.slots_agree;
    drives_agree =
        all-agrees-clear_orphans lib db.slots db.drives drive_place db.tapes db.drives
          (λ u r e h. (orphan_free u r e h).1) v.drives_agree;
  }

-- A pull of any inventory that names no tape twice keeps the catalog valid.
pub apply_kernel_to_db-IsValid :
    (db : Catalog) (lib : ℕ) (kernel : Dict MediumLocation)
    → UniqueNames kernel
    → IsValid db
    → IsValid (apply_kernel_to_db db lib kernel).1
unfolding apply_kernel_to_db
apply_kernel_to_db-IsValid db lib kernel unique v = without_orphans-IsValid _ lib (
    place_all-IsValid lib kernel (0, emptied lib db) unique (emptied-IsValid db lib v)
      (emptied-Waiting db lib kernel v))
