-- ===== src/Offline/Failure.antt =====
-- What a failed move into or out of the offline storage leaves.
use vtladm.Prelude.{ℕ, Text, ◌≡◌, refl, ◌∙◌, Bool}
use vtladm.Errors.{VtlError, Result, ok, err, refuse, invalid_parameter, target_path_exists}
use vtladm.Catalog.{Catalog, offline_library_name}
use vtladm.Catalog.Tapes.{Tape}
use vtladm.Changer.World.{World, M, ◌>>=◌, ◌>>◌, lift, query, continue, transact, commit}
use vtladm.Align.Keeps.{KeepsDb, keeps_bind}
use vtladm.Handlers.{with_unit}
use vtladm.Offline.{
  Files, library_dir, tape_image_path, on_disk, look, undone, or_undo, relocate, rename_back,
  store_one, stored, fetched, check_store, check_fetch, make_way, unless_there, store_rows,
  fetch_rows, import_offline_tape_to_online_slot,
}

-- When the operation fails, the catalog is as it was.
abbrev pub FailsSafe : {K A : Type 0} → M K A → Type 0
FailsSafe {K} m = (w : World K) (e : VtlError) → (m w).0 ≡ err e → (m w).1.db ≡ w.db

module _ {K : Type 0} where
  continue-FailsSafe :
      {A B : Type 0} (f : A → M K B)
      → ((a : A) → FailsSafe (f a))
      → (r : Result A) → FailsSafe (continue f r)
  continue-FailsSafe f hf (ok a) w e h = hf a w e h
  continue-FailsSafe f hf (err x) w e h = refl

  bind-FailsSafe :
      {A B : Type 0} (m : M K A) (f : A → M K B)
      → KeepsDb m
      → ((a : A) → FailsSafe (f a))
      → FailsSafe (m >>= f)
  bind-FailsSafe m f keeps hf w e h = continue-FailsSafe f hf (m w).0 (m w).1 e h ∙ keeps w

  undone-FailsSafe :
      (undo : M K (Unit {0}))
      → KeepsDb undo
      → (w : World K) (p : Result (Unit {0} × Catalog)) (e : VtlError)
      → (undone undo (commit w p).0 (commit w p).1).0 ≡ err e
      → (undone undo (commit w p).0 (commit w p).1).1.db ≡ w.db
  undone-FailsSafe undo keeps w (ok (u, db)) e h = cc h
  undone-FailsSafe undo keeps w (err x) e h = keeps w

  or_undo-FailsSafe :
      (f : Catalog → Result (Unit {0} × Catalog)) (undo : M K (Unit {0}))
      → KeepsDb undo
      → FailsSafe (or_undo (transact f) undo)
  or_undo-FailsSafe f undo keeps w e h = undone-FailsSafe undo keeps w (f w.db) e h

module _ {K : Type 0} (fs : Files K) (tape_dir : Text) where
  keeps-make_way : (library old path : Text) → KeepsDb (make_way fs tape_dir library old path)
  keeps-make_way library old path =
      keeps_bind (on_disk (fs.create_dir_all (library_dir fs tape_dir library)))
        (λ _. on_disk (fs.rename old path)) (λ w. refl) (λ _ w. refl)

  keeps-unless_there :
      (library old path : Text) (there : Bool)
      → KeepsDb (unless_there fs tape_dir library old path there)
  keeps-unless_there library old path there =
      keeps_bind (lift (refuse there (invalid_parameter target_path_exists)))
        (λ _. make_way fs tape_dir library old path) (λ w. refl)
        (λ _. keeps-make_way library old path)

  pub keeps-relocate : (library old path : Text) → KeepsDb (relocate fs tape_dir library old path)
  keeps-relocate library old path =
      keeps_bind (look (fs.exists path)) (unless_there fs tape_dir library old path) (λ w. refl)
        (keeps-unless_there library old path)

  -- Where the file was moved and the transaction `f` decides.
  relocated-FailsSafe :
      (library old path : Text) (f : Catalog → Result (Unit {0} × Catalog))
      → FailsSafe (
          relocate fs tape_dir library old path
          >> or_undo (transact f) (rename_back fs tape_dir path old))
  relocated-FailsSafe library old path f =
      bind-FailsSafe (relocate fs tape_dir library old path)
        (λ _. or_undo (transact f) (rename_back fs tape_dir path old))
        (keeps-relocate library old path)
        (λ _. or_undo-FailsSafe f (rename_back fs tape_dir path old) (λ w. refl))

  stored-FailsSafe :
      (from offline shelf : ℕ) (name : Text) (r : Tape)
      → FailsSafe (stored fs tape_dir from offline shelf name r)
  unfolding stored
  stored-FailsSafe from offline shelf name r =
      relocated-FailsSafe offline_library_name r.image_path
        (tape_image_path fs tape_dir offline_library_name name)
        (λ db. with_unit (
          store_rows from offline shelf (tape_image_path fs tape_dir offline_library_name name) r
            db))

  fetched-FailsSafe :
      (library : Text) (online : ℕ) (name : Text) (slot : ℕ) (r : Tape)
      → FailsSafe (fetched fs tape_dir library online name slot r)
  unfolding fetched
  fetched-FailsSafe library online name slot r =
      relocated-FailsSafe library r.image_path (tape_image_path fs tape_dir library name)
        (λ db. with_unit (fetch_rows online slot (tape_image_path fs tape_dir library name) r db))

  -- A tape whose move to the offline storage fails, at whichever step, is in the catalog as before.
  pub store_one-FailsSafe :
      (from offline shelf : ℕ) (name : Text)
      → FailsSafe (store_one fs tape_dir from offline shelf name)
  unfolding store_one
  store_one-FailsSafe from offline shelf name =
      bind-FailsSafe (query (λ db. check_store db from offline name))
        (stored fs tape_dir from offline shelf name) (λ w. refl)
        (stored-FailsSafe from offline shelf name)

  -- A tape whose move from the offline storage into a slot fails, at whichever step, is in the
  -- catalog as before.
  pub import_offline-FailsSafe :
      (library : Text) (online offline : ℕ) (name : Text) (slot : ℕ)
      → FailsSafe (import_offline_tape_to_online_slot fs tape_dir library online offline name slot)
  unfolding import_offline_tape_to_online_slot
  import_offline-FailsSafe library online offline name slot =
      bind-FailsSafe (query (λ db. check_fetch db online offline name slot))
        (fetched fs tape_dir library online name slot) (λ w. refl)
        (fetched-FailsSafe library online name slot)
