-- ===== src/Reload/Ends.antt =====
-- How bringing the kernel's geometry up to the catalog ends: only the kernel has moved, or the
-- geometry was applied.
use vtladm.Prelude.{
  Text, ◌≡◌, refl, Bool, true, false, ◌&&◌, not, Option, none, some, if◌then◌else◌, codes,
  if_either,
}
use vtladm.Errors.{IoError}
use vtladm.Catalog.{Catalog}
use vtladm.Settings.{Settings}
use vtladm.Changer.{Device, IoResult, done, failed}
use vtladm.Holders.{
  probe_vtl_device_holders, refuse_rmmod_for_safety, VtlHoldersProbe, clear, busy,
  fuser_unavailable,
}
use vtladm.Reload.Parts.{
  Host, GeomConfig, Site, Status, Outcome, ioctl_ok, reload_ok, script_ok, rescan_only, rescan_done,
  status, lio_exported, holders_busy, ioctl_unavailable, ioctl_failed, need_reload, skipped,
  no_fallback, hot_geom_disabled, script_failed, with_kernel, is_ebusy, is_einval, is_fixed,
  ioctl_error_benign, apply_spec_ioctl,
}
use vtladm.Reload.{
  fall_back, apply_spec, on_ioctl_error, maybe_reload_kernel_vtl_after_db_change, wanted_spec,
  is_unchanged, flag, refuse_ioctl_before_hot_geom, refuse_ioctl_if_vtl_holders_busy,
  sync_after_geom, applied, by_kernelctl, by_script, gave_up, resized, after_ioctl, first_ioctl,
  refused_by, script, after_rescan,
}

-- The statuses that say that the kernel has the new geometry.
abbrev pub took : Status → Bool
took ioctl_ok = true
took reload_ok = true
took script_ok = true
took st = false

abbrev pub site : {K : Type 0} → Catalog → Option Text → K → Site K
site db cache k = record { world = record { db = db; kernel = k }; cache = cache }

module _ {K : Type 0} (host : Host K) (dev : Device K) (s : Settings) (cfg : GeomConfig)
    (spec : Text) where
  -- From the catalog and the cache on: they stay, whatever the kernel went through, or the rest is
  -- what follows a geometry that was applied.
  pub data Ends (db : Catalog) (cache : Option Text) : Outcome K → Type 0 where
    stayed : (st : Status) (k : K) → took st ≡ false → Ends db cache (status st (site db cache k))
    took_ :
        (st : Status) (k : K)
        → took st ≡ true
        → Ends db cache (applied host dev s cfg st spec (site db cache k))
    only_synced :
        (k : K)
        → Ends db cache (
          record { kernel_geom = rescan_only; scsi_rescan = some rescan_done },
          sync_after_geom host dev s cfg (site db cache k),
        )

  abbrev pub EndsAt : Site K → Outcome K → Type 0
  EndsAt w = Ends w.world.db w.cache

  by_kernelctl-Ends : (w : Site K) (r : Bool × K) → EndsAt w (by_kernelctl host dev s cfg spec w r)
  by_kernelctl-Ends w (true, k) = took_ reload_ok k refl
  by_kernelctl-Ends w (false, k) = stayed hot_geom_disabled k refl

  by_script-Ends : (w : Site K) (r : Bool × K) → EndsAt w (by_script host dev s cfg spec w r)
  by_script-Ends w (true, k) = took_ script_ok k refl
  by_script-Ends w (false, k) = stayed script_failed k refl

  refused-not_took : (p : VtlHoldersProbe) → took (refused_by host dev s cfg p) ≡ false
  refused-not_took clear = refl
  refused-not_took busy = refl
  refused-not_took fuser_unavailable = refl

  fall_back-Ends :
      (hot : Bool) (o : Option Text) (w : Site K) → EndsAt w (fall_back host dev s cfg hot o spec w)
  unfolding fall_back
  fall_back-Ends hot (some path) w =
      let held = probe_vtl_device_holders host.probes w.world.kernel in
      if_either (EndsAt w) (refuse_rmmod_for_safety host.probes w.world.kernel)
        (stayed (refused_by host dev s cfg held) w.world.kernel (refused-not_took held))
        (by_script-Ends w (host.run_script path spec w.world.kernel))
  fall_back-Ends false none w = stayed no_fallback w.world.kernel refl
  fall_back-Ends true none w =
      if_either (EndsAt w) (refuse_ioctl_before_hot_geom host dev s cfg w.world.kernel)
        (stayed lio_exported w.world.kernel refl)
        (if_either (EndsAt w) (refuse_ioctl_if_vtl_holders_busy host dev s cfg w.world.kernel)
          (stayed holders_busy w.world.kernel refl)
          (by_kernelctl-Ends w (host.kernelctl_reload w.world.kernel)))

  not_benign : (b : Bool) → took (if b then ioctl_unavailable else ioctl_failed) ≡ false
  not_benign b = if_either (λ st. took st ≡ false) b refl refl

  gave_up-Ends : (e : IoError) (w : Site K) → EndsAt w (gave_up host dev s cfg e spec w)
  gave_up-Ends e w =
      if_either (EndsAt w) (is_ebusy e) (fall_back-Ends true (script host dev s cfg) w) (
        if_either (EndsAt w) (not cfg.kernel_reload_on_db_change)
          (stayed _ w.world.kernel (not_benign (ioctl_error_benign e)))
          (fall_back-Ends false (script host dev s cfg) w))

  resized-Ends :
      (e : IoError) (w : Site K) (r : IoResult (Unit {0}) × K)
      → EndsAt w (resized host dev s cfg e spec w r)
  resized-Ends e w (done u, k) = took_ ioctl_ok k refl
  resized-Ends e w (failed e', k) = gave_up-Ends e (with_kernel k w)

  on_ioctl_error-Ends :
      (e : IoError) (w : Site K) → EndsAt w (on_ioctl_error host dev s cfg e spec w)
  unfolding on_ioctl_error
  on_ioctl_error-Ends e w =
      if_either (EndsAt w) (is_einval e && is_fixed cfg.kernel_geometry_mode)
        (stayed need_reload w.world.kernel refl)
        (if_either (EndsAt w) (not (is_fixed cfg.kernel_geometry_mode) && is_ebusy e)
          (resized-Ends e w (apply_spec_ioctl host.resize_geometry spec w.world.kernel))
          (gave_up-Ends e w))

  after_ioctl-Ends :
      (w : Site K) (r : IoResult (Unit {0}) × K) → EndsAt w (after_ioctl host dev s cfg spec w r)
  after_ioctl-Ends w (done u, k) = took_ ioctl_ok k refl
  after_ioctl-Ends w (failed e, k) = on_ioctl_error-Ends e (with_kernel k w)

  apply_spec-Ends : (w : Site K) → EndsAt w (apply_spec host dev s cfg spec w)
  unfolding apply_spec
  apply_spec-Ends w =
      if_either (EndsAt w) cfg.kernel_geom_prefer_ioctl
        (if_either (EndsAt w) (refuse_ioctl_before_hot_geom host dev s cfg w.world.kernel)
          (stayed lio_exported w.world.kernel refl)
          (if_either (EndsAt w) (refuse_ioctl_if_vtl_holders_busy host dev s cfg w.world.kernel)
            (stayed holders_busy w.world.kernel refl)
            (after_ioctl-Ends w (first_ioctl host dev s cfg spec w.world.kernel))))
        (if_either (EndsAt w) (not cfg.kernel_reload_on_db_change)
          (stayed skipped w.world.kernel refl) (fall_back-Ends false (script host dev s cfg) w))

  after_rescan-Ends : (w : Site K) (r : Bool × K) → EndsAt w (after_rescan host dev s cfg spec w r)
  after_rescan-Ends w (true, k) = only_synced k
  after_rescan-Ends w (false, k) = apply_spec-Ends (with_kernel k w)

-- Every run: only the kernel has moved, or the geometry was applied, or only the hosts were scanned.
pub reload-Ends :
    {K : Type 0} (host : Host K) (dev : Device K) (s : Settings) (cfg : GeomConfig) (w : Site K)
    {spec : Text}
    → wanted_spec host dev s cfg w ≡ some spec
    → EndsAt host dev s cfg spec w (maybe_reload_kernel_vtl_after_db_change host dev s cfg w)
unfolding maybe_reload_kernel_vtl_after_db_change
reload-Ends host dev s cfg w {spec} wanted = rw wanted (
    if_either (EndsAt host dev s cfg spec w) (flag host dev s cfg (codes "VTL_SKIP_KERNEL_RELOAD"))
      (stayed skipped w.world.kernel refl)
      (if_either (EndsAt host dev s cfg spec w) (is_unchanged host dev s cfg spec w)
        (after_rescan-Ends host dev s cfg spec w (host.rescan_hosts w.world.kernel))
        (apply_spec-Ends host dev s cfg spec w)))
