-- ===== src/Libraries/Delete.antt =====
-- What deleting a library does to the catalog.
use vtladm.Prelude.{
  ℕ, Text, ◌≤◌, ◌≡◌, refl, arith, true, false, List, [], ◌∷◌, Option, none, some, ◌==◌, keep, all,
  inl, inr, Option-cases, subst, ◌∙◌,
}
use vtladm.Errors.{ok, >>=-eq-ok, ok-inj}
use vtladm.Catalog.{resolve_library_id}
use vtladm.Catalog.Bays.{
  Bay, bay_at, clear_library, held, clear_library-UniqueKeys, held-clear_library,
}
use vtladm.Catalog.Tapes.{Tape, find_tape, find_named}
use vtladm.Catalog.Agreement.{
  agrees, id_agrees, Place, slot_place, drive_place, all-agrees-clear_library,
}
use vtladm.Robot.Valid.{IsValid}
use vtladm.Libraries.{
  Tables, bay_of_other, tape_of_other, without_library, delete_rows, check_deletable,
}
use vtladm.Libraries.Rows.{
  keep-UniqueKeys, held-keep, all-keep_gain, keep-UniqueIds, find_tape-keep-some, bay_at-keep_other,
}

-- A bay of another library holds a tape of that library, whose row stays.
stays_agreeing :
    (p : Place) (lib l n : ℕ) (tapes : List Tape) (o : Option ℕ)
    → ((r : Tape) → p l n r ≡ true → r.library_id ≡ l)
    → (l == lib) ≡ false
    → id_agrees (p l n) tapes o ≡ true
    → id_agrees (p l n) (keep (tape_of_other lib) tapes) o ≡ true
stays_agreeing p lib l n tapes none says other h = refl
stays_agreeing p lib l n tapes (some t) says other h = elim (Option-cases (find_tape t tapes)) [
  | inl out ↦ cc (out, h)
  | inr (r, found) ↦
      let fits : p l n r ≡ true = ground (arith, found, h) in
      let stays : tape_of_other lib r ≡ true = rw (says r fits) (ground (arith, other)) in
      rw (find_tape-keep-some (tape_of_other lib) t tapes r found stays) fits
]

module _ {A : Type 0} where
  left-agrees :
      (p : Place) (lib : ℕ) (tapes : List Tape) (bs : List (Bay A))
      → ((l n : ℕ) (r : Tape) → p l n r ≡ true → r.library_id ≡ l)
      → all (agrees p tapes) bs ≡ true
      → all
          (agrees p (keep (tape_of_other lib) tapes))
          (keep (bay_of_other lib) (clear_library lib bs))
        ≡ true
  left-agrees p lib tapes bs says h =
      all-keep_gain (agrees p tapes) (agrees p (keep (tape_of_other lib) tapes)) (bay_of_other lib)
        (clear_library lib bs)
        (λ b other fits.
          stays_agreeing p lib b.library_id b.number tapes b.tape_id (says b.library_id b.number)
            (ground (arith, other)) fits)
        (all-agrees-clear_library p lib tapes bs h)

  left-held :
      (lib t : ℕ) (bs : List (Bay A))
      → held t (keep (bay_of_other lib) (clear_library lib bs)) ≤ held t bs
  left-held lib t bs =
      omega
        (arith, held-keep (bay_of_other lib) t (clear_library lib bs), held-clear_library t lib bs)

  bay_at-clear_library_other :
      (lib l n : ℕ) (bs : List (Bay A))
      → (l == lib) ≡ false
      → bay_at l n (clear_library lib bs) ≡ bay_at l n bs
  unfolding bay_at clear_library
  bay_at-clear_library_other lib l n [] h = refl
  bay_at-clear_library_other lib l n (b ∷ bs) h =
      ground (arith, bay_at-clear_library_other lib l n bs h)

  left_other :
      (lib l n : ℕ) (bs : List (Bay A))
      → (l == lib) ≡ false
      → bay_at l n (keep (bay_of_other lib) (clear_library lib bs)) ≡ bay_at l n bs
  left_other lib l n bs h =
      bay_at-keep_other lib l n (clear_library lib bs) h ∙ bay_at-clear_library_other lib l n bs h

slot_says : (l n : ℕ) (r : Tape) → slot_place l n r ≡ true → r.library_id ≡ l
slot_says l n r h = ground (arith, h)

drive_says : (l n : ℕ) (r : Tape) → drive_place l n r ≡ true → r.library_id ≡ l
drive_says l n r h = ground (arith, h)

without_library-IsValid :
    (lib : ℕ) (tables : Tables) → IsValid tables.db → IsValid (without_library lib tables).db
unfolding without_library
without_library-IsValid lib tables v = record {
  slot_keys =
      keep-UniqueKeys (bay_of_other lib) _
        (clear_library-UniqueKeys lib tables.db.slots v.slot_keys);
  drive_keys =
      keep-UniqueKeys (bay_of_other lib) _
        (clear_library-UniqueKeys lib tables.db.drives v.drive_keys);
  tape_ids = keep-UniqueIds (tape_of_other lib) tables.db.tapes v.tape_ids;
  single = λ t.
      omega (arith, v.single t, left-held lib t tables.db.slots, left-held lib t tables.db.drives);
  slots_agree = left-agrees slot_place lib tables.db.tapes tables.db.slots slot_says v.slots_agree;
  drives_agree =
      left-agrees drive_place lib tables.db.tapes tables.db.drives drive_says v.drives_agree;
}

find_named-keep_other :
    (lib l : ℕ) (name : Text) (rs : List Tape)
    → (l == lib) ≡ false
    → find_named l name (keep (tape_of_other lib) rs) ≡ find_named l name rs
unfolding find_named keep
find_named-keep_other lib l name [] h = refl
find_named-keep_other lib l name (r ∷ rs) h = ground (arith, find_named-keep_other lib l name rs h)

find_named-keep_self :
    (lib : ℕ) (name : Text) (rs : List Tape)
    → find_named lib name (keep (tape_of_other lib) rs) ≡ none
unfolding find_named keep
find_named-keep_self lib name [] = refl
find_named-keep_self lib name (r ∷ rs) = ground (arith, find_named-keep_self lib name rs)

pub deleted :
    (name : Text) (tables : Tables) {after : Tables}
    → delete_rows name tables ≡ ok after
    → (lib : ℕ) × (check_deletable name tables.db ≡ ok lib) × (without_library lib tables ≡ after)
unfolding delete_rows
deleted name tables done =
    let (lib, checked, rest) = >>=-eq-ok (check_deletable name tables.db) _ done in
    (lib, checked, ok-inj rest)

resolved :
    (name : Text) (tables : Tables) (lib : ℕ) {after : Tables}
    → resolve_library_id tables.db name ≡ ok lib
    → delete_rows name tables ≡ ok after
    → without_library lib tables ≡ after
unfolding check_deletable
resolved name tables lib named done =
    let (l, checked, rest) = deleted name tables done in
    let same : lib ≡ l = ground (arith, named, checked) in rw same rest

-- Deleting a library keeps the catalog valid; no tape of the library is found afterwards, and the
-- tapes, slots and drives of every other library are found as before.
pub delete_rows-IsValid :
    (name : Text) (tables : Tables) (lib l n : ℕ) (tape : Text) {after : Tables}
    → resolve_library_id tables.db name ≡ ok lib
    → delete_rows name tables ≡ ok after
    → IsValid tables.db
    → (l == lib) ≡ false
    → IsValid after.db
      × (find_named lib tape after.db.tapes ≡ none)
      × (find_named l tape after.db.tapes ≡ find_named l tape tables.db.tapes)
      × (bay_at l n after.db.slots ≡ bay_at l n tables.db.slots)
      × (bay_at l n after.db.drives ≡ bay_at l n tables.db.drives)
delete_rows-IsValid name tables lib l n tape named done v other =
    rw (← resolved name tables lib named done) (
      without_library-IsValid lib tables v,
      unfold without_library in find_named-keep_self lib tape tables.db.tapes,
      unfold without_library in find_named-keep_other lib l tape tables.db.tapes other,
      unfold without_library in left_other lib l n tables.db.slots other,
      unfold without_library in left_other lib l n tables.db.drives other,
    )

pub kept-IsValid :
    (name : Text) (tables : Tables) {after : Tables}
    → delete_rows name tables ≡ ok after
    → IsValid tables.db
    → IsValid after.db
kept-IsValid name tables done v =
    let (lib, _, e) = deleted name tables done in
    subst (λ (t : Tables). IsValid t.db) e (without_library-IsValid lib tables v)
