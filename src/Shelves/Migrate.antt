-- ===== src/Shelves/Migrate.antt =====
-- Moving tapes from one shelf to another.
use vtladm.Prelude.{
  All, subst, ℕ, Text, ◌≡◌, refl, arith, Bool, true, false, List, [], ◌∷◌, some, ◌==◌,
  if◌then◌else◌, subst, All, inl, inr, ◌∙◌,
}
use vtladm.Errors.{ok, ok_or, >>=-eq-ok, Result-cases, ok-inj, tape_not_found}
use vtladm.Catalog.{Catalog, resolve_library_id, resolve_shelf_id}
use vtladm.Catalog.Bays.{is_some}
use vtladm.Catalog.Tapes.{
  Tape, find_tape, find_named, update_tape, find_tape-update_tape, update_tape-UniqueIds,
  find_named_sound,
}
use vtladm.Catalog.Agreement.{slot_place, drive_place, all-agrees-update_tape, held_nowhere}
use vtladm.Robot.Valid.{IsValid, places}
use vtladm.Shelves.{migrate_one, migrate_all, migrate_tapes_between_shelves, to_shelf, on}

-- What one round checked, and what it wrote.
migrate_one_result :
    (lib from to : ℕ) (name : Text) (db : Catalog) {after : Catalog}
    → migrate_one lib from to name db ≡ ok after
    → (r : Tape) × (find_named lib name db.tapes ≡ some r)
      × (on from r.shelf_id ≡ true)
      × (after ≡ record db { tapes = update_tape r.id (to_shelf to) db.tapes })
unfolding migrate_one
migrate_one_result lib from to name db done =
    let (r, row, one) =
      >>=-eq-ok (ok_or (find_named lib name db.tapes) (tape_not_found name)) _ done in
    (r, ground arith, ground arith, ground arith)

module _ (lib from to : ℕ) (name : Text) (db : Catalog) {after : Catalog}
    (done : migrate_one lib from to name db ≡ ok after) (v : IsValid db) where
  moved_row :
      (r : Tape) × (find_tape r.id db.tapes ≡ some r)
      × (is_some r.shelf_id ≡ true)
      × (after ≡ record db { tapes = update_tape r.id (to_shelf to) db.tapes })
  moved_row =
      let (r, named, there, eq) = migrate_one_result lib from to name db done in
      (r, (find_named_sound lib name db.tapes r v.tape_ids named).0, ground arith, eq)

  migrate_one-IsValid : IsValid after
  migrate_one-IsValid =
      let (r, row, there, eq) = moved_row in
      rw eq (record {
        slot_keys = v.slot_keys;
        drive_keys = v.drive_keys;
        tape_ids = update_tape-UniqueIds r.id (to_shelf to) db.tapes (λ x. refl) v.tape_ids;
        single = v.single;
        slots_agree =
            all-agrees-update_tape slot_place r.id (to_shelf to) db.tapes db.slots (λ x. refl)
              (held_nowhere slot_place r.id r db.tapes db.slots row (λ l n. ground (arith, there))
                v.slots_agree)
              v.slots_agree;
        drives_agree =
            all-agrees-update_tape drive_place r.id (to_shelf to) db.tapes db.drives (λ x. refl)
              (held_nowhere drive_place r.id r db.tapes db.drives row (λ l n. ground (arith, there))
                v.drives_agree)
              v.drives_agree;
      })

  places-migrate_one : (u : ℕ) → places u after ≡ places u db
  unfolding places
  places-migrate_one u =
      let (r, row, there, eq) = moved_row in
      ground
        (arith, eq, there, row, find_tape-update_tape r.id (to_shelf to) u db.tapes (λ x. refl))

-- The tape of that name is on the shelf.
abbrev pub Stands : ℕ → ℕ → Text → Catalog → Type 0
Stands lib to name db =
    (r : Tape) × (find_named lib name db.tapes ≡ some r) × (r.shelf_id ≡ some to)

-- Writing a shelf into rows moves no name.
find_named-to_shelf :
    (lib : ℕ) (name : Text) (t to : ℕ) (rs : List Tape) (r : Tape)
    → find_named lib name rs ≡ some r
    → find_named lib name (update_tape t (to_shelf to) rs)
      ≡ some (if r.id == t then to_shelf to r else r)
unfolding find_named update_tape
find_named-to_shelf lib name t to [] r h = cc
find_named-to_shelf lib name t to (x ∷ rs) r h =
    ground (arith, find_named-to_shelf lib name t to rs r)

migrate_one-Stands :
    (lib from to : ℕ) (name : Text) (db : Catalog) {after : Catalog}
    → migrate_one lib from to name db ≡ ok after
    → Stands lib to name after
migrate_one-Stands lib from to name db done =
    let (r, named, there, eq) = migrate_one_result lib from to name db done in
    (
      to_shelf to r,
      rw eq (ground (arith, find_named-to_shelf lib name r.id to db.tapes r named)),
      refl,
    )

Stands-if :
    (b : Bool) (to : ℕ) (r : Tape)
    → r.shelf_id ≡ some to
    → (if b then to_shelf to r else r).shelf_id ≡ some to
Stands-if true to r h = refl
Stands-if false to r h = h

migrate_one-Stands_still :
    (lib from to : ℕ) (name other : Text) (db : Catalog) {after : Catalog}
    → migrate_one lib from to name db ≡ ok after
    → Stands lib to other db
    → Stands lib to other after
migrate_one-Stands_still lib from to name other db done (x, here, shelf) =
    let (r, named, there, eq) = migrate_one_result lib from to name db done in
    (
      if x.id == r.id then to_shelf to x else x,
      rw eq (find_named-to_shelf lib other r.id to db.tapes x here),
      Stands-if (x.id == r.id) to x shelf,
    )

migrate_all-Stands_still :
    (lib from to : ℕ) (names : List Text) (other : Text) (db : Catalog) {after : Catalog}
    → migrate_all lib from to names db ≡ ok after
    → Stands lib to other db
    → Stands lib to other after
unfolding migrate_all
migrate_all-Stands_still lib from to [] other db done h =
    subst (Stands lib to other) (ok-inj done) h
migrate_all-Stands_still lib from to (name ∷ names) other db done h =
    let (mid, one, rest) = >>=-eq-ok (migrate_one lib from to name db) _ done in
    migrate_all-Stands_still lib from to names other mid rest
      (migrate_one-Stands_still lib from to name other db one h)

migrate_all-Stands :
    (lib from to : ℕ) (names : List Text) (db : Catalog) {after : Catalog}
    → migrate_all lib from to names db ≡ ok after
    → All (λ name. Stands lib to name after) names
unfolding migrate_all
migrate_all-Stands lib from to [] db done = tt
migrate_all-Stands lib from to (name ∷ names) db done =
    let (mid, one, rest) = >>=-eq-ok (migrate_one lib from to name db) _ done in
    (
      migrate_all-Stands_still lib from to names name mid rest
          (migrate_one-Stands lib from to name db one),
      migrate_all-Stands lib from to names mid rest,
    )

migrate_all-IsValid :
    (lib from to : ℕ) (names : List Text) (db : Catalog) {after : Catalog}
    → migrate_all lib from to names db ≡ ok after
    → IsValid db
    → IsValid after × ((u : ℕ) → places u after ≡ places u db)
unfolding migrate_all
migrate_all-IsValid lib from to [] db {after} done v =
    subst (λ b. IsValid b × ((u : ℕ) → places u b ≡ places u db)) (ok-inj done) (v, λ u. refl)
migrate_all-IsValid lib from to (name ∷ names) db done v =
    let (mid, one, rest) = >>=-eq-ok (migrate_one lib from to name db) _ done in
    let (w, same) =
      migrate_all-IsValid lib from to names mid rest
        (migrate_one-IsValid lib from to name db one v) in
    (w, λ u. same u ∙ places-migrate_one lib from to name db one v u)

migrate_steps :
    (db : Catalog) (library from_shelf target : Text) (names : List Text) (lib to : ℕ)
    {after : Catalog}
    → resolve_library_id db library ≡ ok lib
    → resolve_shelf_id db lib target ≡ ok to
    → migrate_tapes_between_shelves library from_shelf target names db ≡ ok after
    → (from : ℕ) × (migrate_all lib from to names db ≡ ok after)
unfolding migrate_tapes_between_shelves
migrate_steps db library from_shelf target names lib to named shelf done =
    elim (Result-cases (resolve_shelf_id db lib from_shelf)) [
      | inl (from, there) ↦ (from, ground (arith, named, shelf, there))
      | inr (e, missing) ↦ ground (arith, named, shelf, missing)
    ]

-- A migration that succeeds leaves every named tape on the target shelf, keeps the catalog valid,
-- and leaves each tape in as many places as it was.
pub migrate_moves :
    (db : Catalog) (library from_shelf target : Text) (names : List Text) (lib to : ℕ) (u : ℕ)
    {after : Catalog}
    → resolve_library_id db library ≡ ok lib
    → resolve_shelf_id db lib target ≡ ok to
    → migrate_tapes_between_shelves library from_shelf target names db ≡ ok after
    → IsValid db
    → All (λ name. Stands lib to name after) names × IsValid after × (places u after ≡ places u db)
migrate_moves db library from_shelf target names lib to u named shelf done v =
    let (from, moves) = migrate_steps db library from_shelf target names lib to named shelf done in
    let (valid, same) = migrate_all-IsValid lib from to names db moves v in
    (migrate_all-Stands lib from to names db moves, valid, same u)
