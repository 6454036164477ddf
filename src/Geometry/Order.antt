-- ===== src/Geometry/Order.antt =====
-- The segments of the kernel's spec, and the instance numbers of the libraries.
use vtladm.Prelude.{
  ℕ, ◌≡◌, ◌≤◌, ◌<◌, refl, true, false, not, List, [], ◌∷◌, Option, none, some, ◌==◌, suc, zero,
  length, keep, take, arith, ap, sym, subst, All, length-take,
}
use vtladm.Errors.{ok}
use vtladm.Catalog.{Catalog}
use vtladm.Geometry.{
  max_online_libraries, max_drives_per_lib, max_data_slots_per_lib, online_ids, count_drives,
  count_data_slots, is_shell, online_library_ids_for_kernel_sync, position,
  library_kernel_instance_index, online_library_export_index, clamp, segment, segments,
  at_least_one, from_ids, build_vtl_instances_kernel_spec,
}

abbrev pub get_elem? {ℓ} : {A : Type ℓ} → List A → ℕ → Option A
get_elem? [] i = none
get_elem? (x ∷ xs) zero = some x
get_elem? (x ∷ xs) (suc i) = get_elem? xs i

position-bound : (lib i : ℕ) (ids : List ℕ) → position lib ids ≡ some i → i < length ids
unfolding position
position-bound lib i [] h = cc
position-bound lib zero (id ∷ ids) h = omega arith
position-bound lib (suc i) (id ∷ ids) h = ground (arith, position-bound lib i ids)

segments-position :
    (db : Catalog) (lib i : ℕ) (ids : List ℕ)
    → position lib (keep (λ id. not (is_shell db id)) ids) ≡ some i
    → get_elem? (segments db ids) i ≡ some (segment db lib)
unfolding position segments keep
segments-position db lib i [] h = cc
segments-position db lib zero (id ∷ ids) h = ground (arith, segments-position db lib zero ids)
segments-position db lib (suc i) (id ∷ ids) h =
    ground (arith, segments-position db lib i ids, segments-position db lib (suc i) ids)

-- Every segment lies in the kernel's ranges.
abbrev pub InRange : ℕ × ℕ → Type 0
InRange (d, s) = (1 ≤ d) × (d ≤ max_drives_per_lib) × (1 ≤ s) × (s ≤ max_data_slots_per_lib)

segments-InRange : (db : Catalog) (ids : List ℕ) → All InRange (segments db ids)
unfolding segments
segments-InRange db [] = tt
segments-InRange db (id ∷ ids) = ground (arith, segments-InRange db ids)

length-segments : (db : Catalog) (ids : List ℕ) → length (segments db ids) ≤ length ids
unfolding segments
length-segments db [] = omega arith
length-segments db (id ∷ ids) = ground (arith, length-segments db ids)

take_all : (n : ℕ) (ids : List ℕ) → length ids ≤ n → take n ids ≡ ids
take_all zero [] h = refl
take_all (suc n) [] h = refl
take_all zero (id ∷ ids) h = absurd (omega arith)
take_all (suc n) (id ∷ ids) h = ground (arith, take_all n ids)

at_least_one-eq :
    (ps spec : List (ℕ × ℕ)) → at_least_one ps ≡ ok spec → (spec ≡ ps) × (1 ≤ length spec)
at_least_one-eq [] spec h = cc
at_least_one-eq (p ∷ ps) spec h = ground arith

from_ids-eq :
    (db : Catalog) (ids : List ℕ) (spec : List (ℕ × ℕ))
    → from_ids db ids ≡ ok spec
    → (spec ≡ segments db ids) × (1 ≤ length spec)
from_ids-eq db [] spec h = cc
from_ids-eq db (id ∷ ids) spec h = at_least_one-eq (segments db (id ∷ ids)) spec h

-- A spec that is built has 1 to 8 segments, each in the ranges of the kernel.
pub spec-InRange :
    (db : Catalog) {spec : List (ℕ × ℕ)}
    → build_vtl_instances_kernel_spec db ≡ ok spec
    → (1 ≤ length spec) × (length spec ≤ max_online_libraries) × All InRange spec
unfolding build_vtl_instances_kernel_spec
spec-InRange db {spec} h =
    let ids = take max_online_libraries (online_ids db.libraries) in
    let (e, one) = from_ids-eq db ids spec h in
    (
      one,
      omega (
        arith,
        ap length e,
        length-segments db ids,
        length-take {0} max_online_libraries (online_ids db.libraries),
      ),
      subst (All InRange) (sym e) (segments-InRange db ids),
    )

-- With at most 8 online libraries, the segment at a library's instance number is its own.
pub spec_at_instance :
    (db : Catalog) (lib : ℕ) {i : ℕ} {spec : List (ℕ × ℕ)}
    → length (online_ids db.libraries) ≤ max_online_libraries
    → build_vtl_instances_kernel_spec db ≡ ok spec
    → library_kernel_instance_index db lib ≡ ok i
    → get_elem? spec i
      ≡ some (
        clamp max_drives_per_lib (count_drives db lib),
        clamp max_data_slots_per_lib (count_data_slots db lib),
      )
unfolding build_vtl_instances_kernel_spec library_kernel_instance_index
    online_library_ids_for_kernel_sync
spec_at_instance db lib {i} {spec} few built index =
    let ids = take max_online_libraries (online_ids db.libraries) in
    let (e, _) = from_ids-eq db ids spec built in
    rw (e, take_all max_online_libraries (online_ids db.libraries) few)
      (segments-position db lib i (online_ids db.libraries) (ground arith))

-- The index under which a library is exported and its instance number differ when an empty library
-- stands before it.
pub export_index_past_shell :
    (db : Catalog) (shell lib : ℕ) {ids : List ℕ}
    → online_ids db.libraries ≡ shell ∷ lib ∷ ids
    → (shell == lib) ≡ false
    → is_shell db shell ≡ true
    → is_shell db lib ≡ false
    → (online_library_export_index db lib ≡ ok 1) × (library_kernel_instance_index db lib ≡ ok 0)
unfolding online_library_export_index library_kernel_instance_index position keep
export_index_past_shell db shell lib all differ empty filled = ground arith
