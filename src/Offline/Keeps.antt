-- ===== src/Offline/Keeps.antt =====
-- The invariant under the moves into and out of the offline storage, and their failures midway.
use vtladm.Prelude.{
  ℕ, Text, ◌≡◌, refl, sym, ap, subst, arith, ◌∙◌, true, false, List, [], ◌∷◌, none, some, inl, inr,
  Option-cases,
}
use vtladm.Errors.{Result, ok, err, ok-inj, Result-cases}
use vtladm.Catalog.{Catalog, offline_library_name, tape_in_drive}
use vtladm.Catalog.Bays.{is_some, content, bay_at}
use vtladm.Catalog.Tapes.{Tape, find_named, find_tape, find_named_sound}
use vtladm.Robot.Valid.{IsValid}
use vtladm.Changer.World.{World, M, ◌>>=◌, ◌>>◌, continue, transact, commit}
use vtladm.Align.Keeps.{KeepsDb}
use vtladm.Handlers.{with_unit}
use vtladm.Offline.{
  Files, tape_image_path, undone, or_undo, relocate, rename_back, stored, fetched, check_store,
  check_fetch, store_one, store_each, store_rows, fetch_rows, import_offline_tape_to_online_slot,
  assert_data_slot_empty,
}
use vtladm.Offline.Rows.{store_rows-IsValid, fetch_rows-IsValid}
use vtladm.Offline.Failure.{keeps-relocate}

-- Whatever the operation answers, a valid catalog is valid afterwards.
abbrev pub KeepsValid : {K A : Type 0} → M K A → Type 0
KeepsValid {K} m = (w : World K) → IsValid w.db → IsValid (m w).1.db

module _ {K : Type 0} where
  pub continue-KeepsValid :
      {A B : Type 0} (f : A → M K B)
      → ((a : A) → KeepsValid (f a))
      → (r : Result A) → KeepsValid (continue f r)
  continue-KeepsValid f hf (ok a) w v = hf a w v
  continue-KeepsValid f hf (err e) w v = v

  pub bind-KeepsValid :
      {A B : Type 0} (m : M K A) (f : A → M K B)
      → KeepsValid m
      → ((a : A) → KeepsValid (f a))
      → KeepsValid (m >>= f)
  bind-KeepsValid m f hm hf w v = continue-KeepsValid f hf (m w).0 (m w).1 (hm w v)

  pub of_db-KeepsValid : {A : Type 0} (m : M K A) → KeepsDb m → KeepsValid m
  of_db-KeepsValid m keeps w v = subst IsValid (sym (keeps w)) v

  undone-IsValid :
      (undo : M K (Unit {0}))
      → KeepsDb undo
      → (w : World K) (p : Result (Unit {0} × Catalog))
      → ((u : Unit {0}) (after : Catalog) → p ≡ ok (u, after) → IsValid after)
      → IsValid w.db
      → IsValid (undone undo (commit w p).0 (commit w p).1).1.db
  undone-IsValid undo keeps w (ok (u, db)) hp v = hp u db refl
  undone-IsValid undo keeps w (err x) hp v = subst IsValid (sym (keeps w)) v

  after_move-IsValid :
      (f : Catalog → Result (Unit {0} × Catalog)) (undo : M K (Unit {0}))
      → KeepsDb undo
      → (r : Result (Unit {0})) (w : World K)
      → ((u : Unit {0}) (after : Catalog) → f w.db ≡ ok (u, after) → IsValid after)
      → IsValid w.db
      → IsValid (continue (λ _. or_undo (transact f) undo) r w).1.db
  after_move-IsValid f undo keeps (ok u) w hf v = undone-IsValid undo keeps w (f w.db) hf v
  after_move-IsValid f undo keeps (err e) w hf v = v

with_unit-ok :
    (p : Result Catalog) {u : Unit {0}} {after : Catalog}
    → with_unit p ≡ ok (u, after)
    → p ≡ ok after
with_unit-ok (ok db) h = ap ok (ap (λ q. q.1) (ok-inj h))
with_unit-ok (err e) h = cc h

-- The checks find the row of a tape of the library that is in none of its drives.
check_store_sound :
    (db : Catalog) (from offline : ℕ) (name : Text) (r : Tape)
    → IsValid db
    → check_store db from offline name ≡ ok r
    → (find_tape r.id db.tapes ≡ some r)
      × (r.library_id ≡ from)
      × (tape_in_drive db from r.id ≡ false)
unfolding check_store
check_store_sound db from offline name r v h = elim (Option-cases (find_named from name db.tapes)) [
  | inl missing ↦ ground (arith, missing)
  | inr (x, named) ↦ ground (arith, named, find_named_sound from name db.tapes x v.tape_ids named)
]

check_fetch_sound :
    (db : Catalog) (online offline : ℕ) (name : Text) (slot : ℕ) (r : Tape)
    → IsValid db
    → check_fetch db online offline name slot ≡ ok r
    → (find_tape r.id db.tapes ≡ some r)
      × (is_some r.shelf_id ≡ true)
      × (content (bay_at online slot db.slots) ≡ none)
unfolding check_fetch assert_data_slot_empty
check_fetch_sound db online offline name slot r v h =
    elim (Option-cases (find_named offline name db.tapes)) [
      | inl missing ↦ ground (arith, missing)
      | inr (x, named) ↦
          ground (arith, named, find_named_sound offline name db.tapes x v.tape_ids named)
    ]

module _ {K : Type 0} (fs : Files K) (tape_dir : Text) where
  relocated-IsValid :
      (library old path : Text) (f : Catalog → Result (Unit {0} × Catalog)) (w : World K)
      → ((u : Unit {0}) (after : Catalog) → f w.db ≡ ok (u, after) → IsValid after)
      → IsValid w.db
      → IsValid
          ((relocate fs tape_dir library old path
              >> or_undo (transact f) (rename_back fs tape_dir path old))
            w).1.db
  relocated-IsValid library old path f w hf v =
      let same = keeps-relocate fs tape_dir library old path w in
      after_move-IsValid f (rename_back fs tape_dir path old) (λ x. refl)
        (relocate fs tape_dir library old path w).0 (relocate fs tape_dir library old path w).1
        (λ u after h. hf u after (sym (ap f same) ∙ h)) (subst IsValid (sym same) v)

  stored-IsValid :
      (from offline shelf : ℕ) (name : Text) (r : Tape) (w : World K)
      → check_store w.db from offline name ≡ ok r
      → IsValid w.db
      → IsValid (stored fs tape_dir from offline shelf name r w).1.db
  unfolding stored
  stored-IsValid from offline shelf name r w checked v =
      let path = tape_image_path fs tape_dir offline_library_name name in
      let (row, home, unloaded) = check_store_sound w.db from offline name r v checked in
      relocated-IsValid offline_library_name r.image_path path
        (λ db. with_unit (store_rows from offline shelf path r db)) w
        (λ u after h.
          store_rows-IsValid w.db from offline shelf path r row home unloaded
            (with_unit-ok (store_rows from offline shelf path r w.db) h) v)
        v

  fetched-IsValid :
      (library : Text) (online offline : ℕ) (name : Text) (slot : ℕ) (r : Tape) (w : World K)
      → check_fetch w.db online offline name slot ≡ ok r
      → IsValid w.db
      → IsValid (fetched fs tape_dir library online name slot r w).1.db
  unfolding fetched
  fetched-IsValid library online offline name slot r w checked v =
      let path = tape_image_path fs tape_dir library name in
      let (row, shelved, empty) = check_fetch_sound w.db online offline name slot r v checked in
      relocated-IsValid library r.image_path path
        (λ db. with_unit (fetch_rows online slot path r db)) w
        (λ u after h.
          fetch_rows-IsValid w.db online slot path r row shelved empty
            (with_unit-ok (fetch_rows online slot path r w.db) h) v)
        v

  -- One tape of the loop.
  store_one-KeepsValid :
      (from offline shelf : ℕ) (name : Text)
      → KeepsValid (store_one fs tape_dir from offline shelf name)
  unfolding store_one
  store_one-KeepsValid from offline shelf name w v =
      elim (Result-cases (check_store w.db from offline name)) [
        | inl (r, checked) ↦ rw checked (stored-IsValid from offline shelf name r w checked v)
        | inr (e, refused) ↦ rw refused v
      ]

  pub store_each-KeepsValid :
      (from offline shelf : ℕ) (names : List Text)
      → KeepsValid (store_each fs tape_dir from offline shelf names)
  unfolding store_each
  store_each-KeepsValid from offline shelf [] w v = v
  store_each-KeepsValid from offline shelf (name ∷ names) w v =
      bind-KeepsValid (store_one fs tape_dir from offline shelf name)
        (λ _. store_each fs tape_dir from offline shelf names)
        (store_one-KeepsValid from offline shelf name)
        (λ _. store_each-KeepsValid from offline shelf names) w v

  -- A tape from the offline storage.
  pub import_offline-KeepsValid :
      (library : Text) (online offline : ℕ) (name : Text) (slot : ℕ)
      → KeepsValid (import_offline_tape_to_online_slot fs tape_dir library online offline name slot)
  unfolding import_offline_tape_to_online_slot
  import_offline-KeepsValid library online offline name slot w v =
      elim (Result-cases (check_fetch w.db online offline name slot)) [
        | inl (r, checked) ↦
            rw checked (fetched-IsValid library online offline name slot r w checked v)
        | inr (e, refused) ↦ rw refused v
      ]
