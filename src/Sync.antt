-- ===== src/Sync.antt =====
-- The passes over every online library in vtladm-rc/userspace/src/reconcile.rs: the periodic mirror
-- of the kernel's slots, the pull and the alignment. Logging is left out.
pub mod Bays
use vtladm.Prelude.{
  ℕ, Bool, true, false, ◌&&◌, List, [], ◌∷◌, ◌+◌, ltb, length, if◌then◌else◌, Dict,
}
use vtladm.Errors.{Result, ok, err}
use vtladm.Catalog.{Catalog}
use vtladm.Inventory.{KernelInventory, db_inventory, ensure_inventory_complete}
use vtladm.Elements.{MediumLocation}
use vtladm.Drift.{DriftItem, find_drifts}
use vtladm.Geometry.{online_library_ids_for_kernel_sync}
use vtladm.Settings.{Settings, robot_sync, auto_reconcile_pull}
use vtladm.Changer.{Device}
use vtladm.Changer.World.{World, M, ◌>>=◌, ◌>>◌, pure, lift, query, attempt, continue, transact}
use vtladm.Changer.Calls.{kernel_inventory_snapshot}
use vtladm.Align.{
  mirror_rows, AutoAlignReport, auto_align_library, pull_library_inventory_from_kernel,
}

pub record SyncDbFromKernelReport : Type 0 where
  pub libraries : ℕ
  pub tapes_updated : ℕ

abbrev pub as_update : ℕ × Catalog → Result (ℕ × Catalog)
as_update (n, db) = ok (n, db)

-- Whether the alignment left the library with drifts, or failed.
abbrev still_drifts : Result AutoAlignReport → Bool
still_drifts (ok r) = ltb 0 r.drifts_remaining
still_drifts (err e) = true

abbrev answered : Result Bool → Bool
answered (ok b) = b
answered (err e) = false

module _ {K : Type 0} (dev : Device K) (s : Settings) where
  unfoldable pub mirror_kernel_catalog_hints_only : ℕ → M K ℕ
  mirror_kernel_catalog_hints_only lib = do
    snap ← kernel_inventory_snapshot dev lib
    lift (ensure_inventory_complete snap)
    transact (λ db. as_update (mirror_rows db lib snap.locations))

  -- The loop over the libraries: the first failure ends it.
  unfoldable pub mirror_each : List ℕ → ℕ → M K ℕ
  mirror_each [] total = pure total
  mirror_each (lib ∷ libs) total = do
    n ← mirror_kernel_catalog_hints_only lib
    mirror_each libs (total + n)

  abbrev pub mirror_all : M K SyncDbFromKernelReport
  mirror_all = do
    libs ← query (λ db. ok (online_library_ids_for_kernel_sync db))
    total ← mirror_each libs 0
    pure (record { libraries = length libs; tapes_updated = total })

  unfoldable pub sync_db_from_kernel_all_libraries : M K SyncDbFromKernelReport
  unfolding mirror_each
  sync_db_from_kernel_all_libraries =
      if robot_sync s then mirror_all else pure (record { libraries = 0; tapes_updated = 0 })

  -- A library that fails is only logged.
  unfoldable pub pull_each : List ℕ → M K (Unit {0})
  pull_each [] = pure tt
  pull_each (lib ∷ libs) =
      attempt (pull_library_inventory_from_kernel dev s lib) >>= λ _. pull_each libs

  unfoldable pub pull_all_online_libraries_from_kernel : M K (Unit {0})
  unfolding pull_each
  pull_all_online_libraries_from_kernel =
      if robot_sync s
      then query (λ db. ok (online_library_ids_for_kernel_sync db)) >>= pull_each
      else pure tt

  unfoldable pub align_each : List ℕ → M K (Unit {0})
  align_each [] = pure tt
  align_each (lib ∷ libs) = attempt (auto_align_library dev s lib) >>= λ _. align_each libs

  unfoldable pub auto_align_all_online_libraries : M K (Unit {0})
  unfolding align_each
  auto_align_all_online_libraries =
      query (λ db. ok (online_library_ids_for_kernel_sync db)) >>= align_each

  abbrev settle_drifts : ℕ → List DriftItem → M K Bool
  settle_drifts lib [] = pure false
  settle_drifts lib (d ∷ ds) =
      let align = attempt (auto_align_library dev s lib) >>= λ r. pure (still_drifts r) in
      if auto_reconcile_pull s then align else pure true

  abbrev drift_check : ℕ → M K Bool
  drift_check lib = do
    db ← query (λ db. db_inventory db lib)
    snap ← kernel_inventory_snapshot dev lib
    settle_drifts lib (find_drifts db snap.locations)

  -- Every failure before the alignment answers `false`.
  unfoldable pub warn_if_reconcile_drift : ℕ → M K Bool
  warn_if_reconcile_drift lib =
      if robot_sync s then (attempt (drift_check lib) >>= λ r. pure (answered r)) else pure false
