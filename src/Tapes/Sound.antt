-- ===== src/Tapes/Sound.antt =====
-- A catalog stays sound when a tape goes in: `create_tape` of vtladm-rc/userspace/src/main.rs.
use vtladm.Prelude.{
  ℕ, Text, ◌+◌, ◌≤◌, ◌≡◌, refl, arith, Bool, true, false, ◌||◌, List, [], ◌∷◌, ◌++◌, Option, none,
  some, ◌==◌, text_eq, all, if◌then◌else◌, inl, inr, Bool-cases, text_eq_sym, ==_sound,
}
use vtladm.Errors.{ok}
use vtladm.Catalog.{Catalog, Library, has_id, find_library, resolve_library_id}
use vtladm.Catalog.Bays.{is_some}
use vtladm.Catalog.Tapes.{Tape, find_tape, find_named}
use vtladm.Catalog.Agreement.{slot_place, drive_place}
use vtladm.Robot.Valid.{IsValid, places}
use vtladm.Tapes.{
  Quotas, new_tape, insert_tape, check_create, used_elsewhere, assert_tape_name_globally_unique,
  check_quota,
}
use vtladm.Tapes.Create.{
  find_tape-append, append-UniqueIds, all-agrees-append, held_without_row, below, below-find_tape,
  below-append, is_used, UniqueNames, is_housed,
}

-- A catalog into which a tape can go.
pub record IsSound (db : Catalog) : Type 0 where
  pub valid : IsValid db
  pub ids_below : all (below db.next_tape) db.tapes ≡ true
  pub housed : all (is_housed db.libraries) db.tapes ≡ true
  pub names : UniqueNames db.tapes

is_used-append :
    (name : Text) (rs : List Tape) (new : Tape)
    → is_used name (rs ++ new ∷ []) ≡ is_used name rs || text_eq new.name name
unfolding is_used
is_used-append name [] new = ground arith
is_used-append name (r ∷ rs) new = ground (arith, is_used-append name rs new)

append-UniqueNames :
    (rs : List Tape) (new : Tape)
    → is_used new.name rs ≡ false
    → UniqueNames rs
    → UniqueNames (rs ++ new ∷ [])
unfolding UniqueNames is_used
append-UniqueNames [] new h u = (refl, tt)
append-UniqueNames (r ∷ rs) new h u = ground (
  arith,
  is_used-append r.name rs new,
  text_eq_sym r.name new.name,
  append-UniqueNames rs new,
  h,
  u,
)

-- The two checks of the code see every name, where each tape has a library.
pub checked_unused :
    (libs : List Library) (lib : ℕ) (name : Text) (rs : List Tape)
    → all (is_housed libs) rs ≡ true
    → used_elsewhere libs lib name rs ≡ false
    → find_named lib name rs ≡ none
    → is_used name rs ≡ false
unfolding all used_elsewhere find_named is_used
checked_unused libs lib name [] h u n = refl
checked_unused libs lib name (r ∷ rs) h u n =
    ground (arith, checked_unused libs lib name rs, h, u, n)

all-append_row :
    (q : Tape → Bool) (rs : List Tape) (new : Tape)
    → q new ≡ true
    → all q rs ≡ true
    → all q (rs ++ new ∷ []) ≡ true
unfolding all
all-append_row q [] new h k = rw h refl
all-append_row q (r ∷ rs) new h k = ground (arith, all-append_row q rs new h)

-- What the checks of `create_tape` have found out.
pub check_create_sound :
    (q : Quotas) (lib_name name : Text) (size : ℕ) (shelf_name : Option Text) (db : Catalog)
    {lib shelf : ℕ}
    → check_create q lib_name name size shelf_name db ≡ ok (lib, shelf)
    → (find_library lib_name db.libraries ≡ some lib)
      × (used_elsewhere db.libraries lib name db.tapes ≡ false)
      × (find_named lib name db.tapes ≡ none)
      × (check_quota q lib_name size db ≡ ok tt)
unfolding check_create assert_tape_name_globally_unique resolve_library_id
check_create_sound q lib_name name size shelf_name db h = ground (arith, h)

-- The row that a new tape has.
abbrev pub Inserted : Catalog → ℕ → Text → ℕ → Catalog → Tape → Type 0
Inserted db lib name size after new =
    (after ≡ record db { tapes = db.tapes ++ new ∷ []; next_tape = db.next_tape + 1 })
    × (new.id ≡ db.next_tape)
    × (new.library_id ≡ lib)
    × (new.name ≡ name)
    × (new.capacity_bytes ≡ size)
    × (is_some new.shelf_id ≡ true)
    × (size ≤ 9223372036854775807)

pub insert_tape_sound :
    (db : Catalog) (lib shelf : ℕ) (barcode name : Text) (size : ℕ) (path : Text) {after : Catalog}
    → insert_tape lib shelf barcode name size path db ≡ ok after
    → (new : Tape) × Inserted db lib name size after new
unfolding insert_tape
insert_tape_sound db lib shelf barcode name size path h =
    (new_tape db.next_tape lib shelf barcode name size path, ground (arith, h))

module _ (db after : Catalog) (lib : ℕ) (name : Text) (size : ℕ) (new : Tape)
    (ins : Inserted db lib name size after new) (s : IsSound db) where
  pub no_row : find_tape new.id db.tapes ≡ none
  no_row = rw ins.1 (below-find_tape db.next_tape db.tapes s.ids_below)

  inserted-IsValid : IsValid after
  inserted-IsValid = rw ins.0 (record {
    slot_keys = s.valid.slot_keys;
    drive_keys = s.valid.drive_keys;
    tape_ids = append-UniqueIds db.tapes new no_row s.valid.tape_ids;
    single = s.valid.single;
    slots_agree = all-agrees-append slot_place db.tapes new db.slots s.valid.slots_agree;
    drives_agree = all-agrees-append drive_place db.tapes new db.drives s.valid.drives_agree;
  })

  pub inserted-IsSound :
      has_id lib db.libraries ≡ true → is_used name db.tapes ≡ false → IsSound after
  inserted-IsSound there unused =
      let valid : IsValid after = inserted-IsValid in
      let home : is_housed db.libraries new ≡ true = rw ins.2 there in
      let apart : is_used new.name db.tapes ≡ false = rw ins.3 unused in
      record {
        valid = valid;
        ids_below = rw ins.0 (below-append db.next_tape db.tapes new ins.1 s.ids_below);
        housed = rw ins.0 (all-append_row (is_housed db.libraries) db.tapes new home s.housed);
        names = rw ins.0 (append-UniqueNames db.tapes new apart s.names);
      }

  -- The new tape is on its shelf alone; every other tape is where it was.
  pub places-inserted : (u : ℕ) → places u after ≡ (if u == new.id then 1 else places u db)
  unfolding places
  places-inserted u = rw ins.0 (elim (Bool-cases (u == new.id)) [
    | inl same ↦
        let e : u ≡ new.id = ==_sound u new.id same in
        let row : find_tape u db.tapes ≡ none = rw e no_row in
        ground (
          arith,
          same,
          row,
          ins.5,
          find_tape-append u db.tapes new,
          held_without_row slot_place u db.tapes db.slots row s.valid.slots_agree,
          held_without_row drive_place u db.tapes db.drives row s.valid.drives_agree,
        )
    | inr other ↦ ground (arith, other, find_tape-append u db.tapes new)
  ])
