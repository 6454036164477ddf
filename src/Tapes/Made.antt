-- ===== src/Tapes/Made.antt =====
-- What `create_tape` of vtladm-rc/userspace/src/main.rs leaves when it succeeds: the tape, and the
-- quotas.
use vtladm.Prelude.{
  ℕ, Text, ◌+◌, ◌≤◌, ◌≡◌, refl, arith, Bool, true, false, leb, List, [], ◌∷◌, ◌++◌, Option, none,
  some, ◌==◌, if◌then◌else◌, inl, inr, text_eq, text_eq_refl, ℤ, pos, negsuc, codes, ==_refl, ◌∙◌,
}
use vtladm.Errors.{Result, ok, err, Result-cases}
use vtladm.Catalog.{Catalog, resolve_library_id}
use vtladm.Catalog.Bays.{is_some}
use vtladm.Catalog.Tapes.{Tape, find_tape, find_named}
use vtladm.Robot.Valid.{places}
use vtladm.Changer.World.{World}
use vtladm.Tapes.{Machine, create_tape}
use vtladm.Tapes.Quota.{
  Quotas, quota, parsed, sum_capacity, count_in_library, check_quota, check_total, check_count,
}
use vtladm.Tapes.Create.{find_named-append}
use vtladm.Tapes.Sound.{IsSound, check_create_sound, places-inserted, no_row}
use vtladm.Tapes.Batch.{create_tape-Ends, Made}

sum_capacity-append :
    (lib : ℕ) (rs : List Tape) (new : Tape)
    → sum_capacity lib (rs ++ new ∷ [])
      ≡ sum_capacity lib rs + (if new.library_id == lib then new.capacity_bytes else 0)
unfolding sum_capacity
sum_capacity-append lib [] new = ground arith
sum_capacity-append lib (r ∷ rs) new = ground (arith, sum_capacity-append lib rs new)

count_in_library-append :
    (lib : ℕ) (rs : List Tape) (new : Tape)
    → count_in_library lib (rs ++ new ∷ [])
      ≡ count_in_library lib rs + (if new.library_id == lib then 1 else 0)
unfolding count_in_library
count_in_library-append lib [] new = ground arith
count_in_library-append lib (r ∷ rs) new = ground (arith, count_in_library-append lib rs new)

-- What the check of the quotas has found out.
check_quota_sound :
    (q : Quotas) (lib_name : Text) (size lib : ℕ) (db : Catalog)
    → resolve_library_id db lib_name ≡ ok lib
    → check_quota q lib_name size db ≡ ok tt
    → (check_total q lib size db (quota q lib (codes "quota_max_total_size")) ≡ ok tt)
      × (check_count lib db (parsed (quota q lib (codes "quota_max_tapes"))) ≡ ok tt)
unfolding check_quota
check_quota_sound q lib_name size lib db named h = ground (arith, named, h)

abbrev fits_size : Result ℕ → ℕ → Bool
fits_size (ok top) n = leb n top
fits_size (err e) n = false

-- The tapes are within the quota of sizes, if there is one.
abbrev pub fits_total : Quotas → Option Text → ℕ → Bool
fits_total q none n = true
fits_total q (some text) n = fits_size (q.parse_size text) n

-- The tapes are within the quota of numbers, if there is one.
abbrev pub fits_count : Option ℤ → ℕ → Bool
fits_count none n = true
fits_count (some (pos top)) n = leb n top
fits_count (some (negsuc m)) n = false

-- The sum of two `u64` below 2 ^ 63 does not wrap around.
check_total_sound :
    (q : Quotas) (lib size : ℕ) (db : Catalog) (limit : Option Text)
    → size ≤ 9223372036854775807
    → sum_capacity lib db.tapes ≤ 9223372036854775807
    → check_total q lib size db limit ≡ ok tt
    → fits_total q limit (sum_capacity lib db.tapes + size) ≡ true
unfolding check_total
check_total_sound q lib size db none small few h = refl
check_total_sound q lib size db (some text) small few h = elim (Result-cases (q.parse_size text)) [
  | inl (top, reads) ↦ rw reads (ground (arith, reads, h))
  | inr (e, bad) ↦ ground (arith, bad, h)
]

check_count_sound :
    (lib : ℕ) (db : Catalog) (limit : Option ℤ)
    → count_in_library lib db.tapes ≤ 2147483647
    → check_count lib db limit ≡ ok tt
    → fits_count limit (count_in_library lib db.tapes + 1) ≡ true
unfolding check_count
check_count_sound lib db none few h = refl
check_count_sound lib db (some (pos n)) few h = ground (arith, h)
check_count_sound lib db (some (negsuc n)) few h = ground (arith, h)

module _ {K : Type 0} (m : Machine K) (q : Quotas) (tape_dir : Text) (lib_name name : Text)
    (size : ℕ) (shelf_name : Option Text) (w : World K) (lib : ℕ)
    (named : resolve_library_id w.db lib_name ≡ ok lib)
    (done : (create_tape m q tape_dir lib_name name size shelf_name w).0 ≡ ok tt) where
  abbrev pub after : Catalog
  after = (create_tape m q tape_dir lib_name name size shelf_name w).1.db

  create_tape-Made : Made q lib_name name size shelf_name w.db after
  create_tape-Made = elim (create_tape-Ends m q tape_dir lib_name name size shelf_name w) [
    | inl (e, failed, same) ↦ cc (failed, done)
    | inr (u, done', made) ↦ made
  ]

  -- A tape that was made has the name and the size that were asked for, and a new id; it is in one
  -- place, on a shelf, and every other tape is in as many places as before.
  pub create_tape_makes :
      (u : ℕ)
      → IsSound w.db
      → (r : Tape) × (find_named lib name after.tapes ≡ some r)
        × (r.capacity_bytes ≡ size)
        × (is_some r.shelf_id ≡ true)
        × (find_tape r.id w.db.tapes ≡ none)
        × (places u after ≡ (if u == r.id then 1 else places u w.db))
  create_tape_makes u s =
      let (l, shelf, new, passed, ins) = create_tape-Made in
      let (found, _, free, _) = check_create_sound q lib_name name size shelf_name w.db passed in
      let same : l ≡ lib = unfold resolve_library_id in ground (arith, named, found) in
      let free' : find_named lib name w.db.tapes ≡ none = rw (← same) free in
      let eq : text_eq new.name name ≡ true = rw ins.3 (text_eq_refl name) in
      (
        new,
        rw ins.0 (find_named-append lib name w.db.tapes new free' (ins.2 ∙ same) eq),
        ins.4,
        ins.5,
        no_row w.db after l name size new ins s,
        places-inserted w.db after l name size new ins s u,
      )

  -- After a tape was made, the tapes of the library are within each quota that is set for it, or for
  -- all libraries: their sizes sum up to no more than the one, which reads as a size, and there are
  -- no more of them than the other, where it reads as a number, which is then not negative. The sum
  -- before is at most an i64's largest value, and the number before an i32's.
  pub create_tape_within_quota :
      sum_capacity lib w.db.tapes ≤ 9223372036854775807
      → count_in_library lib w.db.tapes ≤ 2147483647
      → (fits_total q (quota q lib (codes "quota_max_total_size")) (sum_capacity lib after.tapes)
          ≡ true)
        × (fits_count
              (parsed (quota q lib (codes "quota_max_tapes")))
              (count_in_library lib after.tapes)
            ≡ true)
  create_tape_within_quota small few =
      let (l, shelf, new, passed, ins) = create_tape-Made in
      let (found, _, _, quotas) = check_create_sound q lib_name name size shelf_name w.db passed in
      let same : l ≡ lib = unfold resolve_library_id in ground (arith, named, found) in
      let (total, count) = check_quota_sound q lib_name size lib w.db named quotas in
      let home : (new.library_id == lib) ≡ true = rw (ins.2, same) (==_refl lib) in
      (
        rw (ins.0, sum_capacity-append lib w.db.tapes new, home, ins.4)
            (check_total_sound q lib size w.db _ ins.6 small total),
        rw (ins.0, count_in_library-append lib w.db.tapes new, home)
            (check_count_sound lib w.db _ few count),
      )
