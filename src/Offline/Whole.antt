-- ===== src/Offline/Whole.antt =====
-- The commands on the offline storage as a whole, with the batch.
use vtladm.Prelude.{
  ℕ, Text, ◌≡◌, refl, arith, Bool, true, false, List, [], ◌∷◌, Option, none, some, if◌then◌else◌,
  inl, inr, Option-cases, Bool-cases, text_eq,
}
use vtladm.Errors.{
  VtlError, Result, ok, err, Result-cases, refuse, invalid_parameter, empty_batch, duplicate_tape,
  offline_library, database_error,
}
use vtladm.Catalog.{
  Catalog, Library, Shelf, offline_library_name, resolve_library_id, resolve_shelf_id, find_library,
  default_unused_shelf_name,
}
use vtladm.Catalog.Tapes.{Tape, find_named}
use vtladm.Robot.{assign_one_tape_to_slot}
use vtladm.Robot.Valid.{IsValid}
use vtladm.Robot.Assign.{assign-IsValid}
use vtladm.Settings.{Settings, robot_sync}
use vtladm.Changer.{Device}
use vtladm.Changer.World.{World, M, ◌>>=◌, pure, attempt, commit, when}
use vtladm.Changer.Calls.{kernel_slot_place}
use vtladm.Align.{try_post_op_auto_align}
use vtladm.Align.Keeps.{KeepsDb, keeps-when, keeps-try_post_op_auto_align}
use vtladm.Handlers.{tell_kernel, barcode_of, with_unit}
use vtladm.Shelves.{
  offline_rows, library_row, default_made, kept, with_id, insert_shelf, has_default, shelf_row,
  no_names, has_duplicate,
}
use vtladm.Offline.{
  Files, in_catalog, on_disk, library_dir, ensure_offline_library, move_tapes_to_offline_shelf,
  import_offline_tape_to_online_slot,
}
use vtladm.Offline.Batch.{
  Move, move_one, move_each, assign_from_shelf, assign_tapes_to_slots_batch, check_batch, no_moves,
}
use vtladm.Offline.Keeps.{
  KeepsValid, continue-KeepsValid, bind-KeepsValid, of_db-KeepsValid, store_each-KeepsValid,
  import_offline-KeepsValid,
}

-- The invariant does not read the libraries and the shelves.
other_tables-IsValid :
    (db : Catalog) (ls : List Library) (ss : List Shelf) (n m : ℕ)
    → IsValid db
    → IsValid (record db { libraries = ls; shelves = ss; next_library = n; next_shelf = m })
other_tables-IsValid db ls ss n m v = record {
  slot_keys = v.slot_keys;
  drive_keys = v.drive_keys;
  tape_ids = v.tape_ids;
  single = v.single;
  slots_agree = v.slots_agree;
  drives_agree = v.drives_agree;
}

library_row-IsValid :
    (name : Text) (o : Option ℕ) (db : Catalog) → IsValid db → IsValid (library_row name o db).1
library_row-IsValid name (some lib) db v = v
library_row-IsValid name none db v = other_tables-IsValid db _ db.shelves _ db.next_shelf v

kept-IsValid :
    (e : VtlError) (db : Catalog) (lib : ℕ) (name : Text) (default : Bool)
    → IsValid db
    → IsValid (kept e db (insert_shelf lib name default db)).1
unfolding insert_shelf
kept-IsValid e db lib name default v = elim (Option-cases (shelf_row lib name db.shelves)) [
  | inl free ↦ rw free (other_tables-IsValid db db.libraries _ db.next_library _ v)
  | inr (s, taken) ↦ rw taken v
]

default_made-IsValid : (lib : ℕ) (db : Catalog) → IsValid db → IsValid (default_made lib db).1
default_made-IsValid lib db v = elim (Bool-cases (has_default lib db.shelves)) [
  | inl there ↦ rw there v
  | inr missing ↦ rw missing (kept-IsValid database_error db lib default_unused_shelf_name true v)
]

with_id-IsValid :
    (lib : ℕ) (p : Result (Unit {0}) × Catalog) → IsValid p.1 → IsValid (with_id lib p).1
with_id-IsValid lib (ok u, db) v = v
with_id-IsValid lib (err e, db) v = v

offline_rows-IsValid : (db : Catalog) → IsValid db → IsValid (offline_rows db).1
unfolding offline_rows
offline_rows-IsValid db v =
    let (lib, made) =
      library_row offline_library_name (find_library offline_library_name db.libraries) db in
    with_id-IsValid lib (default_made lib made) (
      default_made-IsValid lib made (
        library_row-IsValid offline_library_name (find_library offline_library_name db.libraries) db
          v))

assign_named :
    (db : Catalog) (lib : ℕ) (name : Text) (slot : ℕ) {after : Catalog}
    → assign_one_tape_to_slot db lib name slot ≡ ok after
    → (r : Tape) × (find_named lib name db.tapes ≡ some r)
unfolding assign_one_tape_to_slot
assign_named db lib name slot done = elim (Option-cases (find_named lib name db.tapes)) [
  | inl missing ↦ ground (arith, missing)
  | inr found ↦ found
]

module _ {K : Type 0} (fs : Files K) (tape_dir : Text) where
  ensure-KeepsValid : KeepsValid (ensure_offline_library fs tape_dir)
  unfolding ensure_offline_library
  ensure-KeepsValid =
      bind-KeepsValid (in_catalog offline_rows)
        (λ lib. on_disk (fs.create_dir_all (library_dir fs tape_dir offline_library_name)) >>= λ _.
          pure lib)
        (λ w v. offline_rows-IsValid w.db v)
        λ lib.
          bind-KeepsValid
            (on_disk (fs.create_dir_all (library_dir fs tape_dir offline_library_name)))
            (λ _. pure lib) (λ w v. v) (λ _ w v. v)

  -- The move of tapes to a shelf of the offline storage keeps the catalog valid, also when it fails
  -- after some of the tapes were moved.
  pub move_to_offline-KeepsValid :
      (library : Text) (names : List Text) (shelf_name : Text)
      → KeepsValid (move_tapes_to_offline_shelf fs tape_dir library names shelf_name)
  unfolding move_tapes_to_offline_shelf
  move_to_offline-KeepsValid library names shelf_name w v =
      continue-KeepsValid _
        (λ _ w v.
          continue-KeepsValid _
            (λ _ w v.
              continue-KeepsValid _
                (λ from w v.
                  continue-KeepsValid _
                    (λ offline w v.
                      continue-KeepsValid _
                        (λ shelf. store_each-KeepsValid fs tape_dir from offline shelf names)
                        (resolve_shelf_id w.db offline shelf_name) w v)
                    (ensure_offline_library fs tape_dir w).0
                    (ensure_offline_library fs tape_dir w).1 (ensure-KeepsValid w v))
                (resolve_library_id w.db library) w v)
            (refuse (has_duplicate names) (invalid_parameter duplicate_tape)) w v)
        (refuse (no_names names) (invalid_parameter empty_batch)) w v

module _ {K : Type 0} (dev : Device K) (s : Settings) (fs : Files K) (tape_dir : Text) where
  assign_commit-IsValid :
      (online : ℕ) (name : Text) (slot : ℕ) (w : World K)
      → IsValid w.db
      → IsValid (commit w (with_unit (assign_one_tape_to_slot w.db online name slot))).1.db
  assign_commit-IsValid online name slot w v =
      elim (Result-cases (assign_one_tape_to_slot w.db online name slot)) [
        | inl (after, done) ↦
            let (r, named) = assign_named w.db online name slot done in
            rw done (assign-IsValid w.db online slot name named done v)
        | inr (e, refused) ↦ rw refused v
      ]

  keeps-tell_slot_place :
      (lib slot : ℕ) (name : Text) (bc : Option Text)
      → KeepsDb (tell_kernel dev s (kernel_slot_place dev lib slot name bc))
  unfolding kernel_slot_place
  keeps-tell_slot_place lib slot name bc =
      keeps-when dev s (robot_sync s)
        (attempt (kernel_slot_place dev lib slot name bc) >>= λ _. pure tt) (λ w. refl)

  assign_from_shelf-KeepsValid :
      (online : ℕ) (name : Text) (slot : ℕ)
      → KeepsValid (assign_from_shelf dev s fs tape_dir online name slot)
  assign_from_shelf-KeepsValid online name slot w v =
      continue-KeepsValid _
        (λ _ w v.
          of_db-KeepsValid
            (tell_kernel dev s (
              kernel_slot_place dev online slot name
                (barcode_of (find_named online name w.db.tapes))))
            (keeps-tell_slot_place online slot name
              (barcode_of (find_named online name w.db.tapes)))
            w v)
        (commit w (with_unit (assign_one_tape_to_slot w.db online name slot))).0
        (commit w (with_unit (assign_one_tape_to_slot w.db online name slot))).1
        (assign_commit-IsValid online name slot w v)

  if-KeepsValid :
      (b : Bool) (m n : M K (Unit {0}))
      → KeepsValid m
      → KeepsValid n
      → KeepsValid (if b then m else n)
  if-KeepsValid true m n hm hn w v = hm w v
  if-KeepsValid false m n hm hn w v = hn w v

  move_one-KeepsValid :
      (library : Text) (online offline : ℕ) (m : Move)
      → KeepsValid (move_one dev s fs tape_dir library online offline m)
  unfolding move_one
  move_one-KeepsValid library online offline m =
      if-KeepsValid m.from_offline
        (import_offline_tape_to_online_slot fs tape_dir library online offline m.name m.slot)
        (assign_from_shelf dev s fs tape_dir online m.name m.slot)
        (import_offline-KeepsValid fs tape_dir library online offline m.name m.slot)
        (assign_from_shelf-KeepsValid online m.name m.slot)

  move_each-KeepsValid :
      (library : Text) (online offline : ℕ) (moves : List Move)
      → KeepsValid (move_each dev s fs tape_dir library online offline moves)
  unfolding move_each
  move_each-KeepsValid library online offline [] w v = v
  move_each-KeepsValid library online offline (m ∷ ms) w v =
      bind-KeepsValid (move_one dev s fs tape_dir library online offline m)
        (λ _. move_each dev s fs tape_dir library online offline ms)
        (move_one-KeepsValid library online offline m)
        (λ _. move_each-KeepsValid library online offline ms) w v

  aligned : (online : ℕ) → KeepsValid (when (robot_sync s) (try_post_op_auto_align dev s online))
  aligned online = of_db-KeepsValid (when (robot_sync s) (try_post_op_auto_align dev s online)) (
      keeps-when dev s (robot_sync s) (try_post_op_auto_align dev s online)
        (keeps-try_post_op_auto_align dev s online))

  -- The batch of assignments keeps the catalog valid, whatever the kernel and the disk answer, also
  -- when it fails after some of the tapes were moved.
  pub assign_batch-KeepsValid :
      (library : Text) (moves : List Move)
      → KeepsValid (assign_tapes_to_slots_batch dev s fs tape_dir library moves)
  unfolding assign_tapes_to_slots_batch
  assign_batch-KeepsValid library moves w v =
      continue-KeepsValid _
        (λ _ w v.
          continue-KeepsValid _
            (λ _ w v.
              continue-KeepsValid _
                (λ online w v.
                  continue-KeepsValid _
                    (λ offline w v.
                      continue-KeepsValid _
                        (λ _ w v.
                          continue-KeepsValid _ (λ _. aligned online)
                            (move_each dev s fs tape_dir library online offline moves w).0
                            (move_each dev s fs tape_dir library online offline moves w).1
                            (move_each-KeepsValid library online offline moves w v))
                        (check_batch w.db online offline moves) w v)
                    (ensure_offline_library fs tape_dir w).0
                    (ensure_offline_library fs tape_dir w).1 (ensure-KeepsValid fs tape_dir w v))
                (resolve_library_id w.db library) w v)
            (refuse (text_eq library offline_library_name) (invalid_parameter offline_library)) w v)
        (refuse (no_moves moves) (invalid_parameter empty_batch)) w v
