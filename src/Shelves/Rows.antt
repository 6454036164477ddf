-- ===== src/Shelves/Rows.antt =====
-- What making and deleting a shelf does to the other shelves.
use vtladm.Prelude.{
  ℕ, Text, ◌≡◌, refl, arith, true, false, ◌&&◌, List, [], ◌∷◌, ◌++◌, Option, none, some, ◌==◌,
  ==_sound, if◌then◌else◌, text_eq, keep, Bool-cases, ap, inl, inr, text_eq_refl, Option-cases,
  ==_refl,
}
use vtladm.Errors.{VtlError, ok, ok_or, >>=-eq-ok, shelf_not_found}
use vtladm.Catalog.{Catalog, Shelf, resolve_library_id, resolve_shelf_id, find_shelf}
use vtladm.Catalog.Tapes.{Tape}
use vtladm.Catalog.Bays.{is_some}
use vtladm.Shelves.{
  shelf_row, insert_shelf, create_shelf, any_on, delete_rows, delete_shelf_in_library,
}

-- No row with the key, no shelf of that name.
find_shelf-none :
    (lib : ℕ) (name : Text) (ss : List Shelf)
    → shelf_row lib name ss ≡ none
    → find_shelf lib name ss ≡ none
unfolding shelf_row find_shelf
find_shelf-none lib name [] h = refl
find_shelf-none lib name (s ∷ ss) h = ground (arith, find_shelf-none lib name ss)

-- A row at the end is found where no row was found before.
find_shelf-append :
    (lib : ℕ) (name : Text) (ss : List Shelf) (new : Shelf)
    → find_shelf lib name (ss ++ new ∷ []) ≡ (
        if is_some (find_shelf lib name ss)
        then find_shelf lib name ss
        else if new.library_id == lib && text_eq new.name name
        then some new.id
        else none)
unfolding find_shelf
find_shelf-append lib name [] new = ground arith
find_shelf-append lib name (s ∷ ss) new = ground (arith, find_shelf-append lib name ss new)

if_found : (e : VtlError) (o : Option ℕ) → ok_or (if is_some o then o else none) e ≡ ok_or o e
if_found e none = refl
if_found e (some s) = refl

abbrev new_shelf : ℕ → Text → Catalog → Shelf
new_shelf lib name db = record {
  id = db.next_shelf;
  library_id = lib;
  name = name;
  is_default_unused = false;
}

create_shelf_result :
    (db : Catalog) (library name : Text) (lib : ℕ) {after : Catalog}
    → resolve_library_id db library ≡ ok lib
    → create_shelf library name db ≡ ok after
    → (shelf_row lib name db.shelves ≡ none)
      × (after.shelves ≡ db.shelves ++ new_shelf lib name db ∷ [])
unfolding create_shelf insert_shelf
create_shelf_result db library name lib named done =
    elim (Option-cases (shelf_row lib name db.shelves)) [
      | inl free ↦ ground (arith, named, free)
      | inr (s, taken) ↦ ground (arith, named, taken)
    ]

-- A shelf that was made is found under its name, with the next id.
pub create_shelf_found :
    (db : Catalog) (library name : Text) (lib : ℕ) {after : Catalog}
    → resolve_library_id db library ≡ ok lib
    → create_shelf library name db ≡ ok after
    → resolve_shelf_id after lib name ≡ ok db.next_shelf
unfolding resolve_shelf_id
create_shelf_found db library name lib named done =
    let (free, rows) = create_shelf_result db library name lib named done in
    rw
      (
        rows,
        find_shelf-append lib name db.shelves (new_shelf lib name db),
        find_shelf-none lib name db.shelves free,
        ==_refl lib,
        text_eq_refl name,
      )
      refl

-- After a shelf was made, every other shelf is found, or not found, as before.
pub create_shelf_keeps :
    (db : Catalog) (library name : Text) (lib l : ℕ) (n : Text) {after : Catalog}
    → resolve_library_id db library ≡ ok lib
    → create_shelf library name db ≡ ok after
    → (lib == l && text_eq name n) ≡ false
    → resolve_shelf_id after l n ≡ resolve_shelf_id db l n
unfolding resolve_shelf_id
create_shelf_keeps db library name lib l n named done other =
    let (free, rows) = create_shelf_result db library name lib named done in
    rw (rows, find_shelf-append l n db.shelves (new_shelf lib name db), other)
      (if_found _ (find_shelf l n db.shelves))

keep-delete_rows :
    (lib s sid : ℕ) (rs : List Shelf)
    → (s == sid) ≡ false
    → keep (λ r. r.id == sid) (delete_rows lib s rs) ≡ keep (λ r. r.id == sid) rs
unfolding keep delete_rows
keep-delete_rows lib s sid [] h = refl
keep-delete_rows lib s sid (r ∷ rs) h = ground (arith, keep-delete_rows lib s sid rs h)

differ :
    (rs : List Tape) (s sid : ℕ) → any_on s rs ≡ false → any_on sid rs ≡ true → (s == sid) ≡ false
differ rs s sid free stands = elim (Bool-cases (s == sid)) [
  | inl same ↦ cc (==_sound s sid same, free, stands)
  | inr other ↦ other
]

delete_shelf_result :
    (db : Catalog) (library name : Text) {after : Catalog}
    → delete_shelf_in_library library name db ≡ ok after
    → (lib : ℕ) × (s : ℕ) × (any_on s db.tapes ≡ false)
      × (after ≡ record db { shelves = delete_rows lib s db.shelves })
unfolding delete_shelf_in_library
delete_shelf_result db library name done =
    let (lib, named, one) = >>=-eq-ok (resolve_library_id db library) _ done in
    let (s, row, two) =
      >>=-eq-ok (ok_or (shelf_row lib name db.shelves) (shelf_not_found name)) _ one in
    (lib, s.id, ground arith, ground arith)

-- A shelf on which a tape stands, of whichever library, is not deleted.
pub delete_shelf_strands_none :
    (db : Catalog) (library name : Text) (sid : ℕ) {after : Catalog}
    → delete_shelf_in_library library name db ≡ ok after
    → any_on sid db.tapes ≡ true
    → (keep (λ r. r.id == sid) after.shelves ≡ keep (λ r. r.id == sid) db.shelves)
      × (after.tapes ≡ db.tapes)
delete_shelf_strands_none db library name sid done stands =
    let (lib, s, free, eq) = delete_shelf_result db library name done in
    ground (
      arith,
      eq,
      ap (λ b. b.tapes) eq,
      keep-delete_rows lib s sid db.shelves (differ db.tapes s sid free stands),
    )
