-- ===== src/Display/Found.antt =====
-- What one row tells that `changer_inventory_from_kernel` of
-- vtladm-rc/userspace/src/robot_sync.rs builds.
use vtladm.Prelude.{
  ℕ, Text, ◌≡◌, refl, arith, true, false, List, [], ◌∷◌, Option, none, some, ◌==◌, text_eq,
  text_eq_refl, text_eq_sound, ◌⊎◌, inl, inr, Bool-cases, Option-cases, Dict, lookup, insert,
  lookup-insert, contains_key, ==_sound,
}
use vtladm.Catalog.{Catalog}
use vtladm.Catalog.Bays.{Bay}
use vtladm.Catalog.Tapes.{Tape, find_named}
use vtladm.Elements.{MediumLocation, location_eq}
use vtladm.Pull.Valid.{UniqueNames}
use vtladm.Display.{Label, ChangerRow, tape_at, kernel_row, tape_barcode_map}
use vtladm.Display.Rows.{shown, barcode_of, found_row}

-- `UNIQUE (library_id, name)` on the tapes.
abbrev pub UniqueNamed : List Tape → Type 0
UniqueNamed [] = Unit {0}
UniqueNamed (r ∷ rs) = (find_named r.library_id r.name rs ≡ none) × UniqueNamed rs

location_eq_sound : (a b : MediumLocation) → location_eq a b ≡ true → a ≡ b
location_eq_sound a b h = ground arith

location_eq_refl : (a : MediumLocation) → location_eq a a ≡ true
location_eq_refl a = ground arith

-- A name that is not in the inventory has no location.
lookup-absent : {V : Type 0} (k : Text) (m : Dict V) → contains_key k m ≡ false → lookup k m ≡ none
unfolding lookup contains_key
lookup-absent k [] h = refl
lookup-absent k ((j, v) ∷ m) h = ground (arith, lookup-absent k m, h)

-- The tape that is shown at a location is there.
tape_at_sound :
    (loc : MediumLocation) (t : Text) (m : Dict MediumLocation)
    → UniqueNames m
    → tape_at loc m ≡ some t
    → lookup t m ≡ some loc
unfolding tape_at lookup
tape_at_sound loc t [] u h = cc h
tape_at_sound loc t ((name, l) ∷ m) u h = elim (Option-cases (tape_at loc m)) [
  | inr (other, later) ↦
      let e : tape_at loc m ≡ some t = ground (arith, later, h) in
      let rest : lookup t m ≡ some loc = tape_at_sound loc t m u.1 e in
      elim (Bool-cases (text_eq name t)) [
        | inl same ↦
            let one : name ≡ t = text_eq_sound name t same in
            let absent : lookup t m ≡ none = rw (← one) (lookup-absent name m u.0) in
            absurd (cc (absent, rest))
        | inr apart ↦ rw apart rest
      ]
  | inl no_later ↦ elim (Bool-cases (location_eq l loc)) [
    | inl here ↦
        let one : name ≡ t = ground (arith, no_later, here, h) in
        rw (one, text_eq_refl t, location_eq_sound l loc here) refl
    | inr elsewhere ↦ ground (arith, no_later, elsewhere, h)
  ]
]

-- Where no tape is shown, none is.
tape_at-none :
    (loc : MediumLocation) (t : Text) (m : Dict MediumLocation)
    → tape_at loc m ≡ none
    → ¬ (lookup t m ≡ some loc)
unfolding tape_at lookup
tape_at-none loc t [] h found = cc found
tape_at-none loc t ((name, l) ∷ m) h found = elim (Option-cases (tape_at loc m)) [
  | inr (other, later) ↦ ground (arith, later, h)
  | inl no_later ↦ elim (Bool-cases (text_eq name t)) [
    | inl same ↦
        let e : l ≡ loc = ground (arith, found, same) in
        let here : location_eq l loc ≡ true = rw e (location_eq_refl loc) in
        ground (arith, no_later, here, h)
    | inr apart ↦ tape_at-none loc t m no_later (ground (arith, found, apart))
  ]
]

abbrev or_found : Option Text → Option Text → Option Text
or_found (some b) o = some b
or_found none o = o

-- The map has the barcode of each tape of the library.
lookup-tape_barcode_map :
    (lib : ℕ) (t : Text) (rs : List Tape) (out : Dict Text)
    → UniqueNamed rs
    → lookup t (tape_barcode_map lib rs out)
      ≡ or_found (barcode_of (find_named lib t rs)) (lookup t out)
unfolding tape_barcode_map find_named
lookup-tape_barcode_map lib t [] out u = refl
lookup-tape_barcode_map lib t (r ∷ rs) out u = elim (Bool-cases (r.library_id == lib)) [
  | inr other ↦ rw other (lookup-tape_barcode_map lib t rs out u.1)
  | inl here ↦ elim (Bool-cases (text_eq r.name t)) [
    | inl same ↦
        let home : r.library_id ≡ lib = ==_sound r.library_id lib here in
        let one : r.name ≡ t = text_eq_sound r.name t same in
        let absent : find_named lib t rs ≡ none = rw (← home, ← one) u.0 in
        rw
          (
            here,
            same,
            lookup-tape_barcode_map lib t rs (insert r.name r.barcode out) u.1,
            absent,
            lookup-insert r.name t r.barcode out,
            same,
          )
          refl
    | inr apart ↦
        rw
          (
            here,
            apart,
            lookup-tape_barcode_map lib t rs (insert r.name r.barcode out) u.1,
            lookup-insert r.name t r.barcode out,
            apart,
          )
          refl
  ]
]

-- What a row tells of a location: no tape, and then `other` is not there, or a tape that is there,
-- with its barcode in the catalog.
abbrev pub Tells : Catalog → ℕ → Dict MediumLocation → MediumLocation → Text → ChangerRow → Type 0
Tells db lib locations loc other r =
    ((r.tape_name ≡ none) × (r.barcode ≡ none) × ¬ (lookup other locations ≡ some loc))
    ⊎ ((t : Text) × (r.tape_name ≡ some t)
        × (lookup t locations ≡ some loc)
        × (r.barcode ≡ barcode_of (find_named lib t db.tapes)))

-- A row stands where the catalog has a bay, and only there.
abbrev pub Stands :
    {A : Type 0}
    → Catalog
    → ℕ
    → Dict MediumLocation
    → MediumLocation
    → Text
    → Option (Bay A)
    → Option ChangerRow
    → Type 0
Stands db lib locations loc other none r = r ≡ none
Stands db lib locations loc other (some b) r =
    (row : ChangerRow) × (r ≡ some row) × Tells db lib locations loc other row

or_found-none : (o : Option Text) → or_found o none ≡ o
or_found-none none = refl
or_found-none (some b) = refl

-- The rows of one kind.
module _ (db : Catalog) (lib : ℕ) (locations : Dict MediumLocation) (unique : UniqueNames locations)
    (named : UniqueNamed db.tapes) (other : Text) where
  abbrev barcodes : Dict Text
  barcodes = tape_barcode_map lib db.tapes []

  kernel_row-Tells :
      (label : Label) (loc : MediumLocation)
      → Tells db lib locations loc other (kernel_row label barcodes (tape_at loc locations))
  unfolding lookup
  kernel_row-Tells label loc = elim (Option-cases (tape_at loc locations)) [
    | inl empty ↦ rw empty (inl (refl, refl, tape_at-none loc other locations empty))
    | inr (t, full) ↦ rw full (
        inr (
          t,
          refl,
          tape_at_sound loc t locations unique full,
          rw (lookup-tape_barcode_map lib t db.tapes [] named)
              (or_found-none (barcode_of (find_named lib t db.tapes))),
        ))
  ]

  pub found_row-Stands :
      {A : Type 0} (label : ℕ → Label) (place : ℕ → MediumLocation) (n : ℕ) (o : Option (Bay A))
      → ((b : Bay A) → o ≡ some b → b.number ≡ n)
      → Stands db lib locations
          (place n)
          other
          o
          (shown (found_row label place barcodes locations) o)
  found_row-Stands label place n none number = refl
  found_row-Stands label place n (some b) number = (
    found_row label place barcodes locations b,
    refl,
    rw (number b refl) (kernel_row-Tells (label n) (place n)),
  )
