-- ===== src/Libraries/Online.antt =====
-- Which online libraries are left when one is deleted.
use vtladm.Prelude.{
  ℕ, Text, ◌+◌, ◌≤◌, ◌≡◌, refl, arith, true, false, List, [], ◌∷◌, some, ◌==◌, leb, text_eq, keep,
  length, Bool-cases, inl, inr, ==_refl, ==_sound, Option-cases, text_eq_sound, subst, ◌⊎◌,
}
use vtladm.Errors.{ok}
use vtladm.Catalog.{
  Catalog, Library, has_id, find_library, resolve_library_id, is_kernel_exported_library_name,
  is_test_only_library_name, legacy_default_library_name,
}
use vtladm.Geometry.{online_ids, count_exported_online_libraries}
use vtladm.Libraries.{Tables, other_library, without_library, delete_rows, check_deletable}
use vtladm.Libraries.Delete.{deleted}

-- The primary key of `vtl_libraries`.
unfoldable pub UniqueLibraries : List Library → Type 0
UniqueLibraries [] = Unit
UniqueLibraries (l ∷ ls) = (has_id l.id ls ≡ false) × UniqueLibraries ls

online_absent :
    (lib : ℕ) (ls : List Library)
    → has_id lib ls ≡ false
    → online_ids (keep (other_library lib) ls) ≡ online_ids ls
unfolding online_ids keep has_id
online_absent lib [] h = refl
online_absent lib (l ∷ ls) h = ground (arith, online_absent lib ls)

-- At most one online library goes.
online_left :
    (lib : ℕ) (ls : List Library)
    → UniqueLibraries ls
    → length (online_ids ls) ≤ length (online_ids (keep (other_library lib) ls)) + 1
unfolding online_ids keep UniqueLibraries
online_left lib [] u = omega arith
online_left lib (l ∷ ls) u = elim (Bool-cases (l.id == lib)) [
  | inl same ↦
      let e : l.id ≡ lib = ==_sound l.id lib same in
      let gone : has_id lib ls ≡ false = subst (λ i. has_id i ls ≡ false) e u.0 in
      rw (same, online_absent lib ls gone) (ground arith)
  | inr other ↦ rw other (ground (arith, online_left lib ls u.1))
]

pub found-has_id :
    (name : Text) (lib : ℕ) (ls : List Library)
    → find_library name ls ≡ some lib
    → has_id lib ls ≡ true
unfolding find_library has_id
found-has_id name lib [] found = cc found
found-has_id name lib (l ∷ ls) found = ground (arith, found, found-has_id name lib ls)

distinct :
    (a b : ℕ) (ls : List Library) → has_id a ls ≡ false → has_id b ls ≡ true → (a == b) ≡ false
distinct a b ls h k = elim (Bool-cases (a == b)) [
  | inl same ↦ cc (==_sound a b same, h, k)
  | inr other ↦ other
]

-- None goes with a name that is not exported.
online_left_all :
    (name : Text) (lib : ℕ) (ls : List Library)
    → UniqueLibraries ls
    → find_library name ls ≡ some lib
    → is_kernel_exported_library_name name ≡ false
    → length (online_ids (keep (other_library lib) ls)) ≡ length (online_ids ls)
unfolding online_ids keep UniqueLibraries find_library
online_left_all name lib [] u found no_ = cc
online_left_all name lib (l ∷ ls) u found no_ = elim (Bool-cases (text_eq l.name name)) [
  | inl same ↦
      let e : l.id ≡ lib = ground (arith, found, same) in
      let gone : has_id lib ls ≡ false = subst (λ i. has_id i ls ≡ false) e u.0 in
      let hidden : is_kernel_exported_library_name l.name ≡ false =
        rw (text_eq_sound l.name name same) no_ in
      rw (e, ==_refl lib, hidden, online_absent lib ls gone) refl
  | inr other ↦
      let there : find_library name ls ≡ some lib = ground (arith, found, other) in
      rw (distinct l.id lib ls u.0 (found-has_id name lib ls there))
        (ground (arith, online_left_all name lib ls u.1 there no_))
]

-- What the check before a deletion has found out.
check_deletable_sound :
    (name : Text) (db : Catalog) (lib : ℕ)
    → check_deletable name db ≡ ok lib
    → (find_library name db.libraries ≡ some lib)
      × ((leb (length (online_ids db.libraries)) 1 ≡ false)
          ⊎ (text_eq name legacy_default_library_name ≡ true))
unfolding check_deletable resolve_library_id count_exported_online_libraries
check_deletable_sound name db lib h = elim (Option-cases (find_library name db.libraries)) [
  | inl none_ ↦ ground (arith, none_, h)
  | inr (l, found) ↦ elim (Bool-cases (leb (length (online_ids db.libraries)) 1)) [
    | inr many ↦ (ground (arith, found, many, h), inl many)
    | inl few ↦ elim (Bool-cases (text_eq name legacy_default_library_name)) [
      | inl legacy ↦ (ground (arith, found, few, legacy, h), inr legacy)
      | inr not_ ↦ ground (arith, found, few, not_, h)
    ]
  ]
]

-- Deleting a library never takes the last one that the kernel exports.
pub delete_rows_leaves_online :
    (name : Text) (tables : Tables) {after : Tables}
    → UniqueLibraries tables.db.libraries
    → delete_rows name tables ≡ ok after
    → 1 ≤ count_exported_online_libraries tables.db
    → 1 ≤ count_exported_online_libraries after.db
unfolding count_exported_online_libraries
delete_rows_leaves_online name tables {after} u done some_ =
    let (lib, checked, e) = deleted name tables done in
    let (found, why) = check_deletable_sound name tables.db lib checked in
    let ls = tables.db.libraries in
    rw (← e) (
      unfold without_library in
      elim why [
        | inl many ↦ ground (arith, many, online_left lib ls u)
        | inr legacy ↦
            let hidden : is_kernel_exported_library_name name ≡ false =
              unfold is_kernel_exported_library_name in
              unfold is_test_only_library_name in rw legacy refl in
            rw (online_left_all name lib ls u found hidden) some_
      ])
