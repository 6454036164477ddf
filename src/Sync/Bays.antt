-- ===== src/Sync/Bays.antt =====
-- The tables `slots` and `drives` under the periodic mirror.
use vtladm.Prelude.{ℕ, ◌≡◌, refl, ◌∙◌, Bool, true, false, List, [], ◌∷◌, if◌then◌else◌, ◌+◌, length}
use vtladm.Errors.{Result, ok, err}
use vtladm.Inventory.{ensure_inventory_complete}
use vtladm.Geometry.{online_library_ids_for_kernel_sync}
use vtladm.Settings.{Settings, robot_sync}
use vtladm.Changer.{Device}
use vtladm.Changer.World.{World, M, ◌>>=◌, pure, lift, query, continue, transact}
use vtladm.Changer.Calls.{kernel_inventory_snapshot}
use vtladm.Align.{mirror_rows}
use vtladm.Align.Keeps.{KeepsDb, keeps-kernel_inventory_snapshot}
use vtladm.Sync.{
  mirror_kernel_catalog_hints_only, mirror_each, mirror_all, sync_db_from_kernel_all_libraries,
  as_update,
}

-- Whatever the operation does, and whether it fails or not, the tables `slots` and `drives` stay.
abbrev pub KeepsBays : {K A : Type 0} → M K A → Type 0
KeepsBays {K} m =
    (w : World K) → ((m w).1.db.slots ≡ w.db.slots) × ((m w).1.db.drives ≡ w.db.drives)

module _ {K : Type 0} where
  bays_of_db : {A : Type 0} (m : M K A) → KeepsDb m → KeepsBays m
  bays_of_db m h w = rw (h w) (refl, refl)

  continue-KeepsBays :
      {A B : Type 0} (f : A → M K B)
      → ((a : A) → KeepsBays (f a))
      → (r : Result A) → KeepsBays (continue f r)
  continue-KeepsBays f hf (ok a) w = hf a w
  continue-KeepsBays f hf (err e) w = (refl, refl)

  bind-KeepsBays :
      {A B : Type 0} (m : M K A) (f : A → M K B)
      → KeepsBays m
      → ((a : A) → KeepsBays (f a))
      → KeepsBays (m >>= f)
  bind-KeepsBays m f hm hf w =
      let (a, b) = continue-KeepsBays f hf (m w).0 (m w).1 in let (c, d) = hm w in (a ∙ c, b ∙ d)

module _ {K : Type 0} (dev : Device K) (s : Settings) where
  mirror-KeepsBays : (lib : ℕ) → KeepsBays (mirror_kernel_catalog_hints_only dev s lib)
  unfolding mirror_kernel_catalog_hints_only mirror_rows
  mirror-KeepsBays lib =
      bind-KeepsBays (kernel_inventory_snapshot dev lib)
        (λ snap. lift (ensure_inventory_complete snap) >>= λ _.
          transact (λ db. as_update (mirror_rows db lib snap.locations)))
        (bays_of_db (kernel_inventory_snapshot dev lib) (keeps-kernel_inventory_snapshot dev s lib))
        λ snap.
          bind-KeepsBays (lift (ensure_inventory_complete snap))
            (λ _. transact (λ db. as_update (mirror_rows db lib snap.locations)))
            (λ w. (refl, refl)) (λ _ w. (refl, refl))

  mirror_each-KeepsBays : (libs : List ℕ) (n : ℕ) → KeepsBays (mirror_each dev s libs n)
  unfolding mirror_each
  mirror_each-KeepsBays [] n w = (refl, refl)
  mirror_each-KeepsBays (lib ∷ libs) n w =
      bind-KeepsBays (mirror_kernel_catalog_hints_only dev s lib)
        (λ k. mirror_each dev s libs (n + k)) (mirror-KeepsBays lib)
        (λ k. mirror_each-KeepsBays libs (n + k)) w

  if-KeepsBays :
      {A : Type 0} (b : Bool) (m n : M K A)
      → KeepsBays m
      → KeepsBays n
      → KeepsBays (if b then m else n)
  if-KeepsBays true m n hm hn w = hm w
  if-KeepsBays false m n hm hn w = hn w

  -- The periodic mirror, whatever the kernel answers and wherever it stops, leaves the tables
  -- `slots` and `drives` as they were.
  pub sync_db_from_kernel-KeepsBays : KeepsBays (sync_db_from_kernel_all_libraries dev s)
  unfolding sync_db_from_kernel_all_libraries
  sync_db_from_kernel-KeepsBays =
      if-KeepsBays (robot_sync s) (mirror_all dev s)
        (pure (record { libraries = 0; tapes_updated = 0 }))
        (bind-KeepsBays (query (λ db. ok (online_library_ids_for_kernel_sync db)))
          (λ libs. mirror_each dev s libs 0 >>= λ total.
            pure (record { libraries = length libs; tapes_updated = total }))
          (λ w. (refl, refl))
          λ libs.
            bind-KeepsBays (mirror_each dev s libs 0)
              (λ total. pure (record { libraries = length libs; tapes_updated = total }))
              (mirror_each-KeepsBays libs 0) (λ total w. (refl, refl)))
        (λ w. (refl, refl))
