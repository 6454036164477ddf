-- ===== src/Align.antt =====
-- vtladm-rc/userspace/src/reconcile.rs: comparing the catalog with the kernel, pulling the kernel's
-- inventory into the catalog, and evacuating tapes that the catalog puts outside the changer.
pub mod Hints
pub mod Keeps
use vtladm.Prelude.{
  ℕ, Text, ◌+◌, Bool, true, false, ◌&&◌, not, List, [], ◌∷◌, Option, none, some, ltb, length,
  if◌then◌else◌, Dict, lookup,
}
use vtladm.Errors.{
  VtlError, Result, ok, err, invalid_parameter, both_directions, push_disabled, robot_sync_disabled,
  inventory_truncated,
}
use vtladm.Catalog.{Catalog}
use vtladm.Catalog.Bays.{is_some}
use vtladm.Inventory.{KernelInventory, db_inventory, ensure_inventory_complete}
use vtladm.Elements.{MediumLocation, option_location_eq}
use vtladm.Drift.{DriftItem, find_drifts}
use vtladm.Pull.{apply_kernel_to_db}
use vtladm.Settings.{Settings, robot_sync, auto_reconcile_pull}
use vtladm.Changer.{Device}
use vtladm.Changer.World.{
  World, M, ◌>>=◌, ◌>>◌, pure, lift, query, attempt, continue, transact, when,
}
use vtladm.Changer.Calls.{
  kernel_inventory_snapshot, evacuate_tape_from_changer, evacuate_shelved_tapes_from_kernel,
}
unfoldable pub use Hints.{mirror_rows}

pub record ReconcileReport : Type 0 where
  pub drifts : List DriftItem
  pub fixes_applied : ℕ
  pub pull_updates : ℕ
  pub inventory_truncated : Bool

pub record AutoAlignReport : Type 0 where
  pub evacuated : ℕ
  pub fixes_applied : ℕ
  pub pull_updates : ℕ
  pub drifts_remaining : ℕ

abbrev pub no_report : AutoAlignReport
no_report = record { evacuated = 0; fixes_applied = 0; pull_updates = 0; drifts_remaining = 0 }

-- Both sides know the tape, and put it in different places.
abbrev both_sides : DriftItem → Bool
both_sides d = is_some d.db && is_some d.kernel && not (option_location_eq d.db d.kernel)

unfoldable pub drifts_safe_for_pull : List DriftItem → Bool
drifts_safe_for_pull [] = true
drifts_safe_for_pull (d ∷ ds) = both_sides d && drifts_safe_for_pull ds

-- `robot reconcile` refuses to go both ways, and to push.
unfoldable pub check_direction : Bool → Bool → Result (Unit {0})
check_direction true true = err (invalid_parameter both_directions)
check_direction true false = err (invalid_parameter push_disabled)
check_direction false pull = ok tt

abbrev check_enabled : Bool → Result (Unit {0})
check_enabled true = ok tt
check_enabled false = err (invalid_parameter robot_sync_disabled)

abbrev pub no_tape : Option MediumLocation → Bool
no_tape o = not (is_some o)

abbrev pub counted : ℕ → Result (Unit {0}) → ℕ
counted n (ok u) = n + 1
counted n (err e) = n

abbrev pub refuse_truncated : Bool → Result (Unit {0})
refuse_truncated true = err (invalid_parameter inventory_truncated)
refuse_truncated false = ok tt

module _ {K : Type 0} (dev : Device K) (s : Settings) where
  abbrev pub pull_into : ℕ → Dict MediumLocation → M K ℕ
  pull_into lib locations = transact (λ db. ok (apply_kernel_to_db db lib locations))

  unfoldable pub pull_library_inventory_from_kernel : ℕ → M K ℕ
  pull_library_inventory_from_kernel lib =
      let pull = (do
        snap ← kernel_inventory_snapshot dev lib
        lift (ensure_inventory_complete snap)
        pull_into lib snap.locations) in
      if robot_sync s then pull else pure 0

  -- The rest of `reconcile_library`, after the refusals: `apply_db` is false from here on.
  abbrev reconciled : ℕ → Bool → KernelInventory → List DriftItem → M K ReconcileReport
  reconciled lib pull_kernel snap [] = pure (record {
    drifts = [];
    fixes_applied = 0;
    pull_updates = 0;
    inventory_truncated = snap.truncated;
  })
  reconciled lib false snap (d ∷ ds) = pure (record {
    drifts = d ∷ ds;
    fixes_applied = 0;
    pull_updates = 0;
    inventory_truncated = snap.truncated;
  })
  reconciled lib true snap (d ∷ ds) = do
    lift (ensure_inventory_complete snap)
    n ← pull_into lib snap.locations
    pure (record {
      drifts = d ∷ ds;
      fixes_applied = 0;
      pull_updates = n;
      inventory_truncated = snap.truncated;
    })

  unfoldable pub reconcile_library : ℕ → Bool → Bool → M K ReconcileReport
  reconcile_library lib apply_db pull_kernel = do
    lift (check_direction apply_db pull_kernel)
    lift (check_enabled (robot_sync s))
    db ← query (λ db. db_inventory db lib)
    snap ← kernel_inventory_snapshot dev lib
    let drifts = find_drifts db snap.locations
    lift (refuse_truncated (snap.truncated && pull_kernel))
    reconciled lib pull_kernel snap drifts

  -- The loop over the drifts: what only the kernel knows is evacuated.
  unfoldable pub evacuate_drifts : ℕ → List DriftItem → ℕ → M K ℕ
  evacuate_drifts lib [] n = pure n
  evacuate_drifts lib (d ∷ ds) n =
      let gone = attempt (evacuate_tape_from_changer dev lib d.tape) >>= λ r.
      evacuate_drifts lib ds (counted n r) in
      let left = evacuate_drifts lib ds n in if no_tape d.db && is_some d.kernel then gone else left

  abbrev pub drifts_now : ℕ → Dict MediumLocation → List DriftItem → ℕ → M K (List DriftItem)
  drifts_now lib db drifts evacuated =
      let again = (do
        after ← kernel_inventory_snapshot dev lib
        pure (find_drifts db after.locations)) in
      if ltb 0 evacuated then again else pure drifts

  abbrev report : ℕ → ℕ → ℕ → AutoAlignReport
  report evacuated updates remaining = record {
    evacuated = evacuated;
    fixes_applied = 0;
    pull_updates = updates;
    drifts_remaining = remaining;
  }

  -- The rest, when drifts are left.
  abbrev pub settled : ℕ → Bool → KernelInventory → ℕ → List DriftItem → M K AutoAlignReport
  settled lib allow_pull snap evacuated [] = pure (report evacuated 0 0)
  settled lib allow_pull snap evacuated (d ∷ ds) =
      let pull = (do
        lift (ensure_inventory_complete snap)
        fresh ← kernel_inventory_snapshot dev lib
        lift (ensure_inventory_complete fresh)
        n ← pull_into lib fresh.locations
        pure (report evacuated n 0)) in
      if allow_pull && (auto_reconcile_pull s && drifts_safe_for_pull (d ∷ ds))
      then pull
      else pure (report evacuated 0 (length (d ∷ ds)))

  abbrev pub align : ℕ → Bool → M K AutoAlignReport
  align lib allow_pull = do
    shelved ← evacuate_shelved_tapes_from_kernel dev lib
    snap ← kernel_inventory_snapshot dev lib
    lift (refuse_truncated snap.truncated)
    db ← query (λ db. db_inventory db lib)
    let drifts = find_drifts db snap.locations
    evacuated ← evacuate_drifts lib drifts shelved
    left ← drifts_now lib db drifts evacuated
    settled lib allow_pull snap evacuated left

  unfoldable pub auto_align_library_inner : ℕ → Bool → M K AutoAlignReport
  unfolding evacuate_drifts
  auto_align_library_inner lib allow_pull =
      if robot_sync s then align lib allow_pull else pure no_report

  unfoldable pub auto_align_library : ℕ → M K AutoAlignReport
  unfolding auto_align_library_inner
  auto_align_library lib = auto_align_library_inner lib true

  -- The loop over the kernel's tapes that the catalog does not have in the changer.
  unfoldable pub evacuate_unknown : ℕ → Dict MediumLocation → Dict MediumLocation → M K (Unit {0})
  evacuate_unknown lib db [] = pure tt
  evacuate_unknown lib db ((tape, loc) ∷ kernel) =
      let gone =
        attempt (evacuate_tape_from_changer dev lib tape) >>= λ r. evacuate_unknown lib db kernel in
      let left = evacuate_unknown lib db kernel in if no_tape (lookup tape db) then gone else left

  abbrev pub evacuate_all_unknown : ℕ → M K (Unit {0})
  evacuate_all_unknown lib = do
    snap ← kernel_inventory_snapshot dev lib
    lift (refuse_truncated snap.truncated)
    db ← query (λ db. db_inventory db lib)
    evacuate_unknown lib db snap.locations

  -- Every failure ends it in silence.
  abbrev pub evacuate_quietly : ℕ → M K (Unit {0})
  evacuate_quietly lib = do
    _ ← attempt (evacuate_shelved_tapes_from_kernel dev lib)
    _ ← attempt (evacuate_all_unknown lib)
    pure tt

  unfoldable pub try_post_op_evacuate_only : ℕ → M K (Unit {0})
  unfolding evacuate_unknown
  try_post_op_evacuate_only lib = if robot_sync s then evacuate_quietly lib else pure tt

  -- The outcome of the alignment is only printed.
  abbrev pub align_quietly : ℕ → M K (Unit {0})
  align_quietly lib =
      when (auto_reconcile_pull s) (attempt (auto_align_library_inner lib false) >>= λ _. pure tt)

  abbrev pub evacuate_and_align : ℕ → M K (Unit {0})
  evacuate_and_align lib = do try_post_op_evacuate_only lib; align_quietly lib

  unfoldable pub try_post_op_auto_align : ℕ → M K (Unit {0})
  unfolding try_post_op_evacuate_only auto_align_library_inner
  try_post_op_auto_align lib = if robot_sync s then evacuate_and_align lib else pure tt
