-- ===== src/Libraries/Create.antt =====
-- What making a library does to the catalog: the tables of bays and the list of libraries.
use vtladm.Prelude.{
  ℕ, Text, ◌+◌, ◌≤◌, ◌≡◌, refl, arith, Bool, true, false, List, [], ◌∷◌, ◌++◌, Option, none, some,
  leb, length, ap, subst, sym,
}
use vtladm.Errors.{
  Result, ok, err, >>=-eq-ok, ok-inj, refuse, invalid_parameter, too_many_libraries, shelf_exists,
}
use vtladm.Catalog.{Catalog, Library, find_library, default_unused_shelf_name}
use vtladm.Catalog.Agreement.{agrees, slot_place, drive_place}
use vtladm.Catalog.Bays.{is_some}
use vtladm.Geometry.{online_ids, count_exported_online_libraries, max_online_libraries}
use vtladm.Robot.Valid.{IsValid}
use vtladm.Shelves.{insert_shelf, library_row, shelf_row}
use vtladm.Elements.{mailslot_offset}
use vtladm.Libraries.{
  Tables, with_bays, library_made, with_shelf, create_rows, check_no_slots, as_database_error,
  insert_bays,
}
use vtladm.Libraries.Rows.{insert_bays-UniqueKeys, held-insert_bays, all-insert_bays}

with_bays-IsValid : (lib d s : ℕ) (db : Catalog) → IsValid db → IsValid (with_bays lib d s db)
with_bays-IsValid lib d s db v = record {
  slot_keys =
      insert_bays-UniqueKeys lib mailslot_offset 4 true _
        (insert_bays-UniqueKeys lib 0 s false db.slots v.slot_keys);
  drive_keys = insert_bays-UniqueKeys lib 0 d tt db.drives v.drive_keys;
  tape_ids = v.tape_ids;
  single = λ t. omega (
    arith,
    v.single t,
    held-insert_bays t lib 0 d tt db.drives,
    held-insert_bays t lib 0 s false db.slots,
    held-insert_bays t lib mailslot_offset 4 true (insert_bays lib 0 s false db.slots),
  );
  slots_agree =
      all-insert_bays (agrees slot_place db.tapes) lib mailslot_offset 4 true _ (λ i. refl)
        (all-insert_bays (agrees slot_place db.tapes) lib 0 s false db.slots (λ i. refl)
          v.slots_agree);
  drives_agree =
      all-insert_bays (agrees drive_place db.tapes) lib 0 d tt db.drives (λ i. refl) v.drives_agree;
}

abbrev pub row : ℕ → Text → Library
row lib name = record { id = lib; name = name }

-- A new row and its default shelf: nothing else changes but the counters.
abbrev pub New : Text → Catalog → ℕ → Catalog → Type 0
New name db lib after =
    (leb max_online_libraries (count_exported_online_libraries db) ≡ false)
    × (lib ≡ db.next_library)
    × (after.libraries ≡ db.libraries ++ row lib name ∷ [])
    × (after.slots ≡ db.slots)
    × (after.drives ≡ db.drives)
    × (after.tapes ≡ db.tapes)

as_database_error-ok :
    (r : Result Catalog) {after : Catalog} → as_database_error r ≡ ok after → r ≡ ok after
as_database_error-ok (ok a) h = h
as_database_error-ok (err e) h = cc h

-- A shelf that is inserted changes the shelves only.
SameRest : Catalog → Catalog → Type 0
SameRest db after =
    (after.libraries ≡ db.libraries)
    × (after.slots ≡ db.slots)
    × (after.drives ≡ db.drives)
    × (after.tapes ≡ db.tapes)

insert_shelf-SameRest :
    (lib : ℕ) (name : Text) (default : Bool) (db : Catalog) {after : Catalog}
    → insert_shelf lib name default db ≡ ok after
    → SameRest db after
unfolding insert_shelf SameRest
insert_shelf-SameRest lib name default db h =
    let (_, _, e) =
      >>=-eq-ok (refuse (is_some (shelf_row lib name db.shelves)) (invalid_parameter shelf_exists))
        _ h in
    subst (SameRest db) (ok-inj e) (refl, refl, refl, refl)

shelf_added :
    (name : Text) (db after : Catalog) (lib : ℕ)
    → with_shelf (library_row name none db) ≡ ok (lib, after)
    → (db.next_library ≡ lib) × SameRest (library_row name none db).1 after
shelf_added name db after lib h =
    let start = (library_row name none db).1 in
    let (mid, first, rest) =
      >>=-eq-ok
        (as_database_error (insert_shelf db.next_library default_unused_shelf_name true start)) _
        h in
    let p : (db.next_library, mid) ≡ (lib, after) = ok-inj rest in
    (
      ap (λ (q : ℕ × Catalog). q.0) p,
      subst (SameRest start) (ap (λ (q : ℕ × Catalog). q.1) p) (
          insert_shelf-SameRest db.next_library default_unused_shelf_name true start
            (as_database_error-ok _ first)),
    )

pub made_row :
    (name : Text) (db after : Catalog) (lib : ℕ)
    → library_made name none db ≡ ok (lib, after)
    → New name db lib after
unfolding SameRest
made_row name db after lib h =
    let (_, room, rest) =
      >>=-eq-ok
        (refuse (leb max_online_libraries (count_exported_online_libraries db))
          (invalid_parameter too_many_libraries))
        _ h in
    let (id, (libs, slots, drives, tapes)) = shelf_added name db after lib rest in
    (
      ground (arith, room),
      sym id,
      subst (λ i. after.libraries ≡ db.libraries ++ row i name ∷ []) id libs,
      slots,
      drives,
      tapes,
    )

pub created :
    (name : Text) (d s : ℕ) (tables : Tables) {after : Tables}
    → create_rows name d s tables ≡ ok after
    → (lib : ℕ) × (base : Catalog) × (library_made name
          (find_library name tables.db.libraries)
          tables.db
        ≡ ok (lib, base))
      × (with_bays lib d s base ≡ after.db)
      × (check_no_slots name (find_library name tables.db.libraries) tables.db ≡ ok tt)
unfolding create_rows
created name d s tables done =
    let (_, free, rest) =
      >>=-eq-ok (check_no_slots name (find_library name tables.db.libraries) tables.db) _ done in
    let ((lib, base), made, last) =
      >>=-eq-ok (library_made name (find_library name tables.db.libraries) tables.db) _ rest in
    (lib, base, made, ap (λ (t : Tables). t.db) (ok-inj last), free)

made-IsValid :
    (name : Text) (db base : Catalog) (lib : ℕ) (o : Option ℕ)
    → library_made name o db ≡ ok (lib, base)
    → IsValid db
    → IsValid base
made-IsValid name db base lib (some l) made v =
    subst IsValid (ap (λ (q : ℕ × Catalog). q.1) (ok-inj made)) v
made-IsValid name db base lib none made v =
    let (_, _, _, slots, drives, tapes) = made_row name db base lib made in
    rw (slots, drives, tapes)
      record {
        slot_keys = v.slot_keys;
        drive_keys = v.drive_keys;
        tape_ids = v.tape_ids;
        single = v.single;
        slots_agree = v.slots_agree;
        drives_agree = v.drives_agree;
      }

-- Making a library keeps the catalog valid, whether the library's row is new or is filled up.
pub create_rows-IsValid :
    (name : Text) (d s : ℕ) (tables : Tables) {after : Tables}
    → create_rows name d s tables ≡ ok after
    → IsValid tables.db
    → IsValid after.db
create_rows-IsValid name d s tables done v =
    let (lib, base, made, e, _) = created name d s tables done in
    subst IsValid e (
      with_bays-IsValid lib d s base
        (made-IsValid name tables.db base lib (find_library name tables.db.libraries) made v))

length-online_ids-append :
    (ls : List Library) (new : Library)
    → length (online_ids (ls ++ new ∷ [])) ≤ length (online_ids ls) + 1
unfolding online_ids
length-online_ids-append [] new = ground arith
length-online_ids-append (l ∷ ls) new = ground (arith, length-online_ids-append ls new)

made_bound :
    (name : Text) (db base : Catalog) (lib : ℕ) (o : Option ℕ)
    → library_made name o db ≡ ok (lib, base)
    → count_exported_online_libraries db ≤ max_online_libraries
    → count_exported_online_libraries base ≤ max_online_libraries
unfolding count_exported_online_libraries
made_bound name db base lib (some l) made h =
    subst (λ (b : Catalog). length (online_ids b.libraries) ≤ max_online_libraries)
      (ap (λ (q : ℕ × Catalog). q.1) (ok-inj made)) h
made_bound name db base lib none made h =
    let (room, _, libs, _, _, _) = made_row name db base lib made in
    rw libs (ground (arith, room, length-online_ids-append db.libraries (row lib name)))

-- Making a library never brings the online libraries above the eight that the kernel takes.
pub create_rows_bound :
    (name : Text) (d s : ℕ) (tables : Tables) {after : Tables}
    → create_rows name d s tables ≡ ok after
    → count_exported_online_libraries tables.db ≤ max_online_libraries
    → count_exported_online_libraries after.db ≤ max_online_libraries
create_rows_bound name d s tables done few =
    let (lib, base, made, e, _) = created name d s tables done in
    let bound =
      made_bound name tables.db base lib (find_library name tables.db.libraries) made few in
    subst (λ (db : Catalog). count_exported_online_libraries db ≤ max_online_libraries) e
      (unfold count_exported_online_libraries in bound)
