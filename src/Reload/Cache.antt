-- ===== src/Reload/Cache.antt =====
-- What the cache of the last spec says, and whether the catalog stays valid, after the kernel's
-- geometry was brought up to the catalog.
use vtladm.Prelude.{
  Text, ◌≡◌, refl, ◌∙◌, Bool, true, false, Option, some, if◌then◌else◌, codes, if_either,
  Option-cases, Bool-cases, inl, inr,
}
use vtladm.Settings.{Settings, robot_sync, trim}
use vtladm.Catalog.{Catalog}
use vtladm.Robot.Valid.{IsValid}
use vtladm.Changer.{Device}
use vtladm.Pull.Whole.{pull_all-KeepsValid}
use vtladm.Reload.Parts.{Host, GeomConfig, Site, Status, Outcome}
use vtladm.Reload.{
  maybe_reload_kernel_vtl_after_db_change, wanted_spec, flag, write_vtl_inst_spec_cache,
  sync_after_geom, with_post_geom_rescan, rescanned,
}
use vtladm.Reload.Ends.{took, site, Ends, stayed, took_, only_synced, reload-Ends}

module _ {K : Type 0} (host : Host K) (dev : Device K) (s : Settings) (cfg : GeomConfig)
    (spec : Text) where
  abbrev pub cached : Option Text → Bool → Option Text
  cached before true = if host.cache_writable then some (trim spec) else host.cache_left before
  cached before false = before

  synced-cache : (w : Site K) → (sync_after_geom host dev s cfg w).cache ≡ w.cache
  synced-cache w = if_either (λ (v : Site K). v.cache ≡ w.cache) (robot_sync s) refl refl

  written-cache :
      (w : Site K) → (write_vtl_inst_spec_cache host dev s cfg spec w).cache ≡ cached w.cache true
  written-cache w = elim (Bool-cases host.cache_writable) [
    | inl can ↦ rw can refl
    | inr cannot ↦ rw cannot refl
  ]

  -- The rescan at the end keeps the status, the catalog and the cache.
  rescanned_keeps :
      (st : Status) (r : Bool × K) (w : Site K)
      → ((rescanned host dev s cfg st r w).0.kernel_geom ≡ st)
        × ((rescanned host dev s cfg st r w).1.cache ≡ w.cache)
        × ((rescanned host dev s cfg st r w).1.world.db ≡ w.world.db)
  rescanned_keeps st (true, k) w = (refl, refl, refl)
  rescanned_keeps st (false, k) w = (refl, refl, refl)

  abbrev Kept : Status → Site K → Outcome K → Type 0
  Kept st w r = (r.0.kernel_geom ≡ st) × (r.1.cache ≡ w.cache) × (r.1.world.db ≡ w.world.db)

  post_rescan_keeps :
      (st : Status) (w : Site K) → Kept st w (with_post_geom_rescan host dev s cfg st w)
  post_rescan_keeps st w =
      if_either (Kept st w) (flag host dev s cfg (codes "VTL_NO_SCSI_RESCAN_AFTER_GEOM"))
        (refl, refl, refl) (rescanned_keeps st (host.rescan_hosts w.world.kernel) w)

  -- The cache is written if the geometry was applied, and else names what it named before.
  Ends-cache :
      (db : Catalog) (before : Option Text) (r : Outcome K)
      → Ends host dev s cfg spec db before r
      → r.1.cache ≡ cached before (took r.0.kernel_geom)
  Ends-cache db before r (stayed st k off) = rw off refl
  Ends-cache db before r (only_synced k) = synced-cache (site db before k)
  Ends-cache db before r (took_ st k on) =
      let w = write_vtl_inst_spec_cache host dev s cfg spec (site db before k) in
      let (same, cache, _) = post_rescan_keeps st (sync_after_geom host dev s cfg w) in
      rw (same, on) (cache ∙ (synced-cache w ∙ written-cache (site db before k)))

  synced-IsValid :
      (w : Site K) → IsValid w.world.db → IsValid (sync_after_geom host dev s cfg w).world.db
  synced-IsValid w v =
      if_either (λ (x : Site K). IsValid x.world.db) (robot_sync s)
        (pull_all-KeepsValid dev s w.world v) v

  written-db : (w : Site K) → (write_vtl_inst_spec_cache host dev s cfg spec w).world ≡ w.world
  written-db w = if_either (λ (v : Site K). v.world ≡ w.world) host.cache_writable refl refl

  Ends-IsValid :
      (db : Catalog) (before : Option Text) (r : Outcome K)
      → Ends host dev s cfg spec db before r
      → IsValid db
      → IsValid r.1.world.db
  Ends-IsValid db before r (stayed st k off) v = v
  Ends-IsValid db before r (only_synced k) v = synced-IsValid (site db before k) v
  Ends-IsValid db before r (took_ st k on) v =
      let w = write_vtl_inst_spec_cache host dev s cfg spec (site db before k) in
      let (_, _, same) = post_rescan_keeps st (sync_after_geom host dev s cfg w) in
      rw same (synced-IsValid w (rw (written-db (site db before k)) v))

-- After a change that reports that the kernel has taken it, the cache of the last spec names the
-- wanted spec, or, where the write fails, what the failed write leaves; after every other outcome it
-- names what it named before.
pub reload_cache :
    {K : Type 0} (host : Host K) (dev : Device K) (s : Settings) (cfg : GeomConfig) (w : Site K)
    {spec : Text}
    → wanted_spec host dev s cfg w ≡ some spec
    → (maybe_reload_kernel_vtl_after_db_change host dev s cfg w).1.cache
      ≡ cached host dev s cfg spec w.cache
          (took (maybe_reload_kernel_vtl_after_db_change host dev s cfg w).0.kernel_geom)
reload_cache host dev s cfg w {spec} wanted =
    Ends-cache host dev s cfg spec w.world.db w.cache _ (reload-Ends host dev s cfg w wanted)

-- Bringing the kernel's geometry up to a valid catalog, with the pulls that follow, keeps it valid,
-- whatever the device, the host and the commands answer.
pub reload-KeepsValid :
    {K : Type 0} (host : Host K) (dev : Device K) (s : Settings) (cfg : GeomConfig) (w : Site K)
    {spec : Text}
    → wanted_spec host dev s cfg w ≡ some spec
    → IsValid w.world.db
    → IsValid (maybe_reload_kernel_vtl_after_db_change host dev s cfg w).1.world.db
reload-KeepsValid host dev s cfg w {spec} wanted v =
    Ends-IsValid host dev s cfg spec w.world.db w.cache _ (reload-Ends host dev s cfg w wanted) v

pub reload_any-KeepsValid :
    {K : Type 0} (host : Host K) (dev : Device K) (s : Settings) (cfg : GeomConfig) (w : Site K)
    → IsValid w.world.db
    → IsValid (maybe_reload_kernel_vtl_after_db_change host dev s cfg w).1.world.db
reload_any-KeepsValid host dev s cfg w v = elim (Option-cases (wanted_spec host dev s cfg w)) [
  | inr (spec, wanted) ↦ reload-KeepsValid host dev s cfg w wanted v
  | inl none_ ↦
      unfold maybe_reload_kernel_vtl_after_db_change in
      rw none_ (
        if_either (λ (r : Outcome _). IsValid r.1.world.db)
          (flag host dev s cfg (codes "VTL_SKIP_KERNEL_RELOAD")) v v)
]
