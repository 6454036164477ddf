-- ===== src/Reload/Busy.antt =====
-- When bringing the kernel's geometry up to the catalog leaves everything as it is.
use vtladm.Prelude.{Text, ◌≡◌, refl, true, false, none, some, codes}
use vtladm.Settings.{Settings}
use vtladm.Changer.{Device}
use vtladm.Holders.{Probes, is_one, parse_vtl_paths_from_lsscsi, lio_pscsi_references_vtl_sg}
use vtladm.Shelves.{is_in}
use vtladm.Reload.Parts.{Host, GeomConfig, Site, lio_exported}
use vtladm.Reload.{
  apply_spec, maybe_reload_kernel_vtl_after_db_change, wanted_spec, is_unchanged, flag,
}

-- A device that `lsscsi` lists has a holder.
abbrev pub IsHeld : {K : Type 0} → Probes K → K → Type 0
IsHeld probes k =
    (text : Text) × (path : Text) × (probes.lsscsi k ≡ some text)
    × (is_in path (parse_vtl_paths_from_lsscsi text) ≡ true)
    × (probes.fuser_holds path k ≡ true)

module _ {K : Type 0} (host : Host K) (dev : Device K) (s : Settings) (cfg : GeomConfig)
    (w : Site K) where
  -- Neither switch that forces the geometry ioctl or the unloading of the module is set.
  abbrev pub NotForced : Type 0
  NotForced =
      (is_one (host.probes.env (codes "VTL_FORCE_GEOM_IOCTL")) ≡ false)
      × (is_one (host.probes.env (codes "VTL_FORCE_RMMOD")) ≡ false)

  -- While LIO exports a device of the library, and no switch allows it, an ioctl that is preferred is
  -- not sent: the result says so, and the catalog, the kernel and the cache stay.
  pub reload_spares_lio :
      {spec : Text}
      → lio_pscsi_references_vtl_sg host.probes w.world.kernel ≡ true
      → flag host dev s cfg (codes "VTL_ALLOW_GEOM_IOCTL_WITH_LIO") ≡ false
      → flag host dev s cfg (codes "VTL_SKIP_KERNEL_RELOAD") ≡ false
      → cfg.kernel_geom_prefer_ioctl ≡ true
      → wanted_spec host dev s cfg w ≡ some spec
      → is_unchanged host dev s cfg spec w ≡ false
      → maybe_reload_kernel_vtl_after_db_change host dev s cfg w
        ≡ (record { kernel_geom = lio_exported; scsi_rescan = none }, w)
  unfolding maybe_reload_kernel_vtl_after_db_change apply_spec
  reload_spares_lio exported careful goes prefers wanted new =
      rw (goes, wanted, new, prefers, careful, exported) refl
