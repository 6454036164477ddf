-- ===== src/Reload.antt =====
-- Bringing the kernel's geometry up to the catalog: `maybe_reload_kernel_vtl_after_db_change` of
-- vtladm-rc/userspace/src/main.rs, with vtladm-rc/userspace/src/kernel_geom_ioctl.rs. The commands
-- and the device are a parameter. Logging is left out.
pub mod Parts
pub mod Busy
pub mod Ends
pub mod Cache
use vtladm.Prelude.{Text, Bool, true, false, ◌&&◌, not, Option, none, some, if◌then◌else◌, codes}
use vtladm.Errors.{IoError}
use vtladm.Settings.{Settings, robot_sync, trim}
use vtladm.Changer.{Device, IoResult, done, failed}
use vtladm.Sync.{pull_all_online_libraries_from_kernel}
use vtladm.Geometry.Spec.{
  built_spec_text, build_vtl_instances_kernel_spec_padded, read_loaded_kernel_vtl_host_count,
}
use vtladm.Holders.{
  VtlHoldersProbe, clear, busy, fuser_unavailable, is_one, is_clear, probe_vtl_device_holders,
  refuse_rmmod_for_safety, lio_pscsi_references_vtl_sg,
}
use Parts.{
  Host, GeomConfig, Status, skipped, spec_error, rescan_only, lio_exported, holders_busy, ioctl_ok,
  need_reload, ioctl_unavailable, ioctl_failed, reload_ok, hot_geom_disabled, no_fallback,
  script_refused_no_fuser, script_refused_holders, script_ok, script_failed, rescan_skipped,
  rescan_done, rescan_failed, Site, Outcome, status, with_kernel, apply_spec_ioctl,
  ioctl_error_benign, is_ebusy, is_einval, is_fixed, to_option, or_else, padded_for, matches_cache,
}

module _ {K : Type 0} (host : Host K) (dev : Device K) (s : Settings) (cfg : GeomConfig) where
  abbrev pub flag : Text → Bool
  flag name = is_one (host.probes.env name)

  abbrev pub refuse_ioctl_before_hot_geom : K → Bool
  refuse_ioctl_before_hot_geom k =
      if flag (codes "VTL_ALLOW_GEOM_IOCTL_WITH_LIO")
      then false
      else lio_pscsi_references_vtl_sg host.probes k

  abbrev pub refuse_ioctl_if_vtl_holders_busy : K → Bool
  refuse_ioctl_if_vtl_holders_busy k =
      if flag (codes "VTL_FORCE_GEOM_IOCTL")
      then false
      else not (is_clear (probe_vtl_device_holders host.probes k))

  abbrev pub wanted_spec : Site K → Option Text
  wanted_spec w =
      let sysfs = host.vtl_instances w.world.kernel in
      let built = to_option (built_spec_text w.world.db) in
      if is_fixed cfg.kernel_geometry_mode
      then or_else (padded_for sysfs (read_loaded_kernel_vtl_host_count sysfs) w.world.db) built
      else built

  -- `write_vtl_inst_spec_cache`: a failure is ignored.
  abbrev pub write_vtl_inst_spec_cache : Text → Site K → Site K
  write_vtl_inst_spec_cache spec w =
      if host.cache_writable
      then record w { cache = some (trim spec) }
      else record w { cache = host.cache_left w.cache }

  -- `if robot_sync_enabled() { sync_all_online_libraries_after_geom() }`.
  abbrev pub sync_after_geom : Site K → Site K
  sync_after_geom w =
      if robot_sync s
      then record w { world = (pull_all_online_libraries_from_kernel dev s w.world).1 }
      else w

  abbrev pub rescanned : Status → Bool × K → Site K → Outcome K
  rescanned st (true, k) w =
      (record { kernel_geom = st; scsi_rescan = some rescan_done }, with_kernel k w)
  rescanned st (false, k) w =
      (record { kernel_geom = st; scsi_rescan = some rescan_failed }, with_kernel k w)

  -- `with_post_geom_rescan` of a status that it acts on, with `try_scsi_rescan_after_geom_change`.
  abbrev pub with_post_geom_rescan : Status → Site K → Outcome K
  with_post_geom_rescan st w =
      if flag (codes "VTL_NO_SCSI_RESCAN_AFTER_GEOM")
      then (record { kernel_geom = st; scsi_rescan = some rescan_skipped }, w)
      else rescanned st (host.rescan_hosts w.world.kernel) w

  abbrev pub applied : Status → Text → Site K → Outcome K
  applied st spec w = with_post_geom_rescan st (sync_after_geom (write_vtl_inst_spec_cache spec w))

  abbrev pub by_kernelctl : Text → Site K → Bool × K → Outcome K
  by_kernelctl spec w (true, k) = applied reload_ok spec (with_kernel k w)
  by_kernelctl spec w (false, k) = status hot_geom_disabled (with_kernel k w)

  abbrev pub refused_by : VtlHoldersProbe → Status
  refused_by fuser_unavailable = script_refused_no_fuser
  refused_by busy = script_refused_holders
  refused_by clear = script_refused_holders

  abbrev pub by_script : Text → Site K → Bool × K → Outcome K
  by_script spec w (true, k) = applied script_ok spec (with_kernel k w)
  by_script spec w (false, k) = status script_failed (with_kernel k w)

  -- From the choice of the script on. The first argument is `ioctl_hot_geom_disabled`.
  unfoldable pub fall_back : Bool → Option Text → Text → Site K → Outcome K
  fall_back hot (some script) spec w =
      if refuse_rmmod_for_safety host.probes w.world.kernel
      then status (refused_by (probe_vtl_device_holders host.probes w.world.kernel)) w
      else by_script spec w (host.run_script script spec w.world.kernel)
  fall_back false none spec w = status no_fallback w
  fall_back true none spec w =
      if refuse_ioctl_before_hot_geom w.world.kernel
      then status lio_exported w
      else if refuse_ioctl_if_vtl_holders_busy w.world.kernel
      then status holders_busy w
      else by_kernelctl spec w (host.kernelctl_reload w.world.kernel)

  abbrev pub script : Option Text
  script = cfg.kernel_vtl_reload_script

  -- After an ioctl that failed in a way for which no second one is tried.
  abbrev pub gave_up : IoError → Text → Site K → Outcome K
  gave_up e spec w =
      if is_ebusy e
      then fall_back true script spec w
      else if not cfg.kernel_reload_on_db_change
      then status (if ioctl_error_benign e then ioctl_unavailable else ioctl_failed) w
      else fall_back false script spec w

  abbrev pub resized : IoError → Text → Site K → IoResult (Unit {0}) × K → Outcome K
  resized e spec w (done u, k) = applied ioctl_ok spec (with_kernel k w)
  resized e spec w (failed e', k) = gave_up e spec (with_kernel k w)

  unfoldable pub on_ioctl_error : IoError → Text → Site K → Outcome K
  unfolding fall_back apply_spec_ioctl
  on_ioctl_error e spec w =
      if is_einval e && is_fixed cfg.kernel_geometry_mode
      then status need_reload w
      else if not (is_fixed cfg.kernel_geometry_mode) && is_ebusy e
      then resized e spec w (apply_spec_ioctl host.resize_geometry spec w.world.kernel)
      else gave_up e spec w

  abbrev pub first_ioctl : Text → K → IoResult (Unit {0}) × K
  first_ioctl spec k =
      if is_fixed cfg.kernel_geometry_mode
      then apply_spec_ioctl host.resize_geometry spec k
      else apply_spec_ioctl host.set_instances spec k

  abbrev pub after_ioctl : Text → Site K → IoResult (Unit {0}) × K → Outcome K
  after_ioctl spec w (done u, k) = applied ioctl_ok spec (with_kernel k w)
  after_ioctl spec w (failed e, k) = on_ioctl_error e spec (with_kernel k w)

  unfoldable pub apply_spec : Text → Site K → Outcome K
  unfolding fall_back on_ioctl_error apply_spec_ioctl
  apply_spec spec w =
      if cfg.kernel_geom_prefer_ioctl
      then (if refuse_ioctl_before_hot_geom w.world.kernel
          then status lio_exported w
          else if refuse_ioctl_if_vtl_holders_busy w.world.kernel
          then status holders_busy w
          else after_ioctl spec w (first_ioctl spec w.world.kernel))
      else if not cfg.kernel_reload_on_db_change
      then status skipped w
      else fall_back false script spec w

  abbrev pub after_rescan : Text → Site K → Bool × K → Outcome K
  after_rescan spec w (true, k) = (
    record { kernel_geom = rescan_only; scsi_rescan = some rescan_done },
    sync_after_geom (with_kernel k w),
  )
  after_rescan spec w (false, k) = apply_spec spec (with_kernel k w)

  abbrev pub is_unchanged : Text → Site K → Bool
  is_unchanged spec w =
      not (flag (codes "VTL_SKIP_SPEC_CACHE"))
      && (not (flag (codes "VTL_NO_SCSI_RESCAN_ON_UNCHANGED_SPEC")) && matches_cache w.cache spec)

  abbrev pub with_spec : Option Text → Site K → Outcome K
  with_spec none w = status spec_error w
  with_spec (some spec) w =
      if is_unchanged spec w
      then after_rescan spec w (host.rescan_hosts w.world.kernel)
      else apply_spec spec w

  unfoldable pub maybe_reload_kernel_vtl_after_db_change : Site K → Outcome K
  unfolding apply_spec built_spec_text build_vtl_instances_kernel_spec_padded
      read_loaded_kernel_vtl_host_count pull_all_online_libraries_from_kernel
  maybe_reload_kernel_vtl_after_db_change w =
      if flag (codes "VTL_SKIP_KERNEL_RELOAD")
      then status skipped w
      else with_spec (wanted_spec w) w
