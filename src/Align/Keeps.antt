-- ===== src/Align/Keeps.antt =====
-- The catalog under the operations of robot_sync.rs and reconcile.rs that do not pull.
use vtladm.Prelude.{
  ℕ, Text, ◌≡◌, refl, ◌∙◌, Bool, true, false, ◌&&◌, List, [], ◌∷◌, Option, none, some,
  if◌then◌else◌, Dict, lookup, contains_key, ltb,
}
use vtladm.Errors.{VtlError, Result, ok, err, enotty, enodev, einval, io_error}
use vtladm.Catalog.Bays.{is_some}
use vtladm.Elements.{MediumLocation, to_element}
use vtladm.Inventory.{KernelInventory, db_inventory}
use vtladm.Drift.{DriftItem, find_drifts}
use vtladm.Robot.{first_empty}
use vtladm.Settings.{Settings, robot_sync, auto_reconcile_pull}
use vtladm.Changer.{Device}
use vtladm.Changer.World.{World, M, ◌>>=◌, pure, lift, query, attempt, continue, when}
use vtladm.Changer.Calls.{
  kernel_inventory_snapshot, kernel_elem_remove, kernel_move_medium, evacuate_element, kernel_load,
  evacuate_tape_from_changer, evacuate_shelved_tapes_from_kernel, evacuate_names, removed, parked,
  park, evacuate_at, tally, shelved_names,
}
use vtladm.Align.{
  evacuate_drifts, counted, drifts_now, settled, align, auto_align_library_inner, evacuate_unknown,
  evacuate_quietly, evacuate_and_align, align_quietly, evacuate_all_unknown,
  try_post_op_evacuate_only, try_post_op_auto_align, refuse_truncated, no_tape,
}

-- Whatever the operation does, and whether it fails or not, the catalog stays.
abbrev pub KeepsDb : {K A : Type 0} → M K A → Type 0
KeepsDb {K} m = (w : World K) → (m w).1.db ≡ w.db

module _ {K : Type 0} where
  keeps_continue :
      {A B : Type 0} (f : A → M K B)
      → ((a : A) → KeepsDb (f a))
      → (r : Result A) → KeepsDb (continue f r)
  keeps_continue f hf (ok a) w = hf a w
  keeps_continue f hf (err e) w = refl

  pub keeps_bind :
      {A B : Type 0} (m : M K A) (f : A → M K B)
      → KeepsDb m
      → ((a : A) → KeepsDb (f a))
      → KeepsDb (m >>= f)
  keeps_bind m f hm hf w = keeps_continue f hf (m w).0 (m w).1 ∙ hm w

  keeps_if :
      {A : Type 0} (b : Bool) (m n : M K A) → KeepsDb m → KeepsDb n → KeepsDb (if b then m else n)
  keeps_if true m n hm hn = hm
  keeps_if false m n hm hn = hn

module _ {K : Type 0} (dev : Device K) (s : Settings) where
  pub keeps-kernel_move_medium : (lib src dst : ℕ) → KeepsDb (kernel_move_medium dev lib src dst)
  unfolding kernel_move_medium
  keeps-kernel_move_medium lib src dst w = refl

  keeps-kernel_elem_remove : (lib e : ℕ) → KeepsDb (kernel_elem_remove dev lib e)
  unfolding kernel_elem_remove
  keeps-kernel_elem_remove lib e w = refl

  pub keeps-kernel_load :
      (lib slot drive : ℕ) (name : Text) (bc : Option Text)
      → KeepsDb (kernel_load dev lib slot drive name bc)
  unfolding kernel_load
  keeps-kernel_load lib slot drive name bc w = refl

  pub keeps-kernel_inventory_snapshot : (lib : ℕ) → KeepsDb (kernel_inventory_snapshot dev lib)
  unfolding kernel_inventory_snapshot
  keeps-kernel_inventory_snapshot lib w = refl

  keeps-parked :
      (e : VtlError) (lib element : ℕ) (o : Option ℕ) → KeepsDb (parked dev e lib element o)
  unfolding kernel_move_medium
  keeps-parked e lib element none w = refl
  keeps-parked e lib element (some mail) w = refl

  keeps-park : (e : VtlError) (lib element : ℕ) → KeepsDb (park dev e lib element)
  unfolding park
  keeps-park e lib element w = keeps-parked e lib element (first_empty true lib w.db.slots) w

  keeps-removed : (lib element : ℕ) (r : Result (Unit {0})) → KeepsDb (removed dev lib element r)
  unfolding removed
  keeps-removed lib element (ok u) w = refl
  keeps-removed lib element (err (io_error enodev)) w = refl
  keeps-removed lib element (err (io_error enotty)) w = keeps-park (io_error enotty) lib element w
  keeps-removed lib element (err (io_error einval)) w = keeps-park (io_error einval) lib element w
  keeps-removed lib element (err _) w = refl

  keeps-evacuate_element : (lib element : ℕ) → KeepsDb (evacuate_element dev lib element)
  unfolding evacuate_element
  keeps-evacuate_element lib element =
      keeps_bind (attempt (kernel_elem_remove dev lib element)) (removed dev lib element)
        (keeps-kernel_elem_remove lib element) (keeps-removed lib element)

  keeps-evacuate_at : (lib : ℕ) (o : Option MediumLocation) → KeepsDb (evacuate_at dev lib o)
  keeps-evacuate_at lib none w = refl
  keeps-evacuate_at lib (some loc) w = keeps-evacuate_element lib (to_element loc) w

  pub keeps-evacuate_tape :
      (lib : ℕ) (name : Text) → KeepsDb (evacuate_tape_from_changer dev lib name)
  unfolding evacuate_tape_from_changer
  keeps-evacuate_tape lib name =
      keeps_bind (kernel_inventory_snapshot dev lib)
        (λ kernel. evacuate_at dev lib (lookup name kernel.locations))
        (keeps-kernel_inventory_snapshot lib)
        (λ kernel. keeps-evacuate_at lib (lookup name kernel.locations))

  keeps-evacuate_names :
      (lib : ℕ) (before : Dict MediumLocation) (names : List Text) (n : ℕ)
      → KeepsDb (evacuate_names dev lib before names n)
  unfolding evacuate_names
  keeps-evacuate_names lib before [] n w = refl
  keeps-evacuate_names lib before (name ∷ names) n w =
      keeps_if (contains_key name before)
        (attempt (evacuate_tape_from_changer dev lib name) >>= λ r.
          evacuate_names dev lib before names (tally n r))
        (evacuate_names dev lib before names n)
        (keeps_bind (attempt (evacuate_tape_from_changer dev lib name))
          (λ r. evacuate_names dev lib before names (tally n r)) (keeps-evacuate_tape lib name)
          (λ r. keeps-evacuate_names lib before names (tally n r)))
        (keeps-evacuate_names lib before names n) w

  pub keeps-evacuate_shelved : (lib : ℕ) → KeepsDb (evacuate_shelved_tapes_from_kernel dev lib)
  unfolding evacuate_shelved_tapes_from_kernel
  keeps-evacuate_shelved lib w =
      keeps_bind (kernel_inventory_snapshot dev lib)
        (λ before. evacuate_names dev lib before.locations (shelved_names lib w.db.tapes) 0)
        (keeps-kernel_inventory_snapshot lib)
        (λ before. keeps-evacuate_names lib before.locations (shelved_names lib w.db.tapes) 0) w

  keeps-evacuate_drifts :
      (lib : ℕ) (ds : List DriftItem) (n : ℕ) → KeepsDb (evacuate_drifts dev s lib ds n)
  unfolding evacuate_drifts
  keeps-evacuate_drifts lib [] n w = refl
  keeps-evacuate_drifts lib (d ∷ ds) n w =
      keeps_if (no_tape d.db && is_some d.kernel)
        (attempt (evacuate_tape_from_changer dev lib d.tape) >>= λ r.
          evacuate_drifts dev s lib ds (counted n r))
        (evacuate_drifts dev s lib ds n)
        (keeps_bind (attempt (evacuate_tape_from_changer dev lib d.tape))
          (λ r. evacuate_drifts dev s lib ds (counted n r)) (keeps-evacuate_tape lib d.tape)
          (λ r. keeps-evacuate_drifts lib ds (counted n r)))
        (keeps-evacuate_drifts lib ds n) w

  keeps-evacuate_unknown :
      (lib : ℕ) (db kernel : Dict MediumLocation) → KeepsDb (evacuate_unknown dev s lib db kernel)
  unfolding evacuate_unknown
  keeps-evacuate_unknown lib db [] w = refl
  keeps-evacuate_unknown lib db ((tape, loc) ∷ kernel) w =
      keeps_if (no_tape (lookup tape db))
        (attempt (evacuate_tape_from_changer dev lib tape) >>= λ r.
          evacuate_unknown dev s lib db kernel)
        (evacuate_unknown dev s lib db kernel)
        (keeps_bind (attempt (evacuate_tape_from_changer dev lib tape))
          (λ r. evacuate_unknown dev s lib db kernel) (keeps-evacuate_tape lib tape)
          (λ r. keeps-evacuate_unknown lib db kernel))
        (keeps-evacuate_unknown lib db kernel) w

  keeps-drifts_now :
      (lib : ℕ) (db : Dict MediumLocation) (drifts : List DriftItem) (n : ℕ)
      → KeepsDb (drifts_now dev s lib db drifts n)
  keeps-drifts_now lib db drifts n w =
      keeps_if (ltb 0 n)
        (kernel_inventory_snapshot dev lib >>= λ after. pure (find_drifts db after.locations))
        (pure drifts)
        (keeps_bind (kernel_inventory_snapshot dev lib)
          (λ after. pure (find_drifts db after.locations)) (keeps-kernel_inventory_snapshot lib)
          (λ after v. refl))
        (λ v. refl) w

  -- Without leave to pull, what is left is only counted.
  keeps-settled :
      (lib : ℕ) (snap : KernelInventory) (n : ℕ) (drifts : List DriftItem)
      → KeepsDb (settled dev s lib false snap n drifts)
  keeps-settled lib snap n [] w = refl
  keeps-settled lib snap n (d ∷ ds) w = refl

  keeps-align : (lib : ℕ) → KeepsDb (align dev s lib false)
  keeps-align lib =
      keeps_bind (evacuate_shelved_tapes_from_kernel dev lib) _ (keeps-evacuate_shelved lib)
        λ shelved.
          keeps_bind (kernel_inventory_snapshot dev lib) _ (keeps-kernel_inventory_snapshot lib)
            λ snap.
              keeps_bind (lift (refuse_truncated snap.truncated)) _ (λ w. refl)
                λ _.
                  keeps_bind (query (λ db. db_inventory db lib)) _ (λ w. refl)
                    λ db.
                      keeps_bind (evacuate_drifts dev s lib (find_drifts db snap.locations) shelved)
                        _ (keeps-evacuate_drifts lib (find_drifts db snap.locations) shelved)
                        λ n.
                          keeps_bind (drifts_now dev s lib db (find_drifts db snap.locations) n) _
                            (keeps-drifts_now lib db (find_drifts db snap.locations) n)
                            λ left. keeps-settled lib snap n left

  pub keeps-auto_align_library_inner :
      (lib : ℕ) → KeepsDb (auto_align_library_inner dev s lib false)
  unfolding auto_align_library_inner
  keeps-auto_align_library_inner lib =
      keeps_if (robot_sync s) (align dev s lib false) _ (keeps-align lib) (λ w. refl)

  keeps-evacuate_all_unknown : (lib : ℕ) → KeepsDb (evacuate_all_unknown dev s lib)
  keeps-evacuate_all_unknown lib =
      keeps_bind (kernel_inventory_snapshot dev lib) _ (keeps-kernel_inventory_snapshot lib) λ snap.
        keeps_bind (lift (refuse_truncated snap.truncated)) _ (λ w. refl)
          λ _.
            keeps_bind (query (λ db. db_inventory db lib)) _ (λ w. refl)
              λ db. keeps-evacuate_unknown lib db snap.locations

  pub keeps-try_post_op_evacuate_only : (lib : ℕ) → KeepsDb (try_post_op_evacuate_only dev s lib)
  unfolding try_post_op_evacuate_only
  keeps-try_post_op_evacuate_only lib =
      keeps_if (robot_sync s) (evacuate_quietly dev s lib) (pure tt)
        (keeps_bind (attempt (evacuate_shelved_tapes_from_kernel dev lib))
          (λ _. attempt (evacuate_all_unknown dev s lib) >>= λ _. pure tt)
          (keeps-evacuate_shelved lib)
          λ _.
            keeps_bind (attempt (evacuate_all_unknown dev s lib)) (λ _. pure tt)
              (keeps-evacuate_all_unknown lib) (λ _ w. refl))
        (λ w. refl)

  pub keeps-when : (b : Bool) (m : M K (Unit {0})) → KeepsDb m → KeepsDb (when b m)
  keeps-when true m h w = h w
  keeps-when false m h w = refl

  pub keeps-try_post_op_auto_align : (lib : ℕ) → KeepsDb (try_post_op_auto_align dev s lib)
  unfolding try_post_op_auto_align
  keeps-try_post_op_auto_align lib =
      keeps_if (robot_sync s) (evacuate_and_align dev s lib) (pure tt)
        (keeps_bind (try_post_op_evacuate_only dev s lib) (λ _. align_quietly dev s lib)
          (keeps-try_post_op_evacuate_only lib)
          λ _.
            keeps-when (auto_reconcile_pull s)
              (attempt (auto_align_library_inner dev s lib false) >>= λ _. pure tt)
              (keeps_bind (attempt (auto_align_library_inner dev s lib false)) (λ _. pure tt)
                (keeps-auto_align_library_inner lib) (λ _ w. refl)))
        (λ w. refl)
