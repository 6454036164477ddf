-- ===== src/Reload/Parts.antt =====
-- What bringing the kernel's geometry up to the catalog works on: the host's commands and device, the
-- configuration and the results of vtladm-rc/userspace/src/main.rs, and the ioctl's buffer of
-- vtladm-rc/userspace/src/kernel_geom_ioctl.rs.
use vtladm.Prelude.{
  ℕ, Text, ◌-◌, Bool, true, false, ◌++◌, List, Option, none, some, leb, length, if◌then◌else◌,
  text_eq,
}
use vtladm.Errors.{
  Result, ok, err, IoError, enotty, enodev, einval, ebusy, not_found, unsupported, invalid_input,
}
use vtladm.Catalog.{Catalog}
use vtladm.Settings.{trim}
use vtladm.Changer.{IoResult, failed, zeros}
use vtladm.Changer.World.{World}
use vtladm.Geometry.Spec.{KernelGeometryMode, fixed, legacy, build_vtl_instances_kernel_spec_padded}
use vtladm.Holders.{Probes}

-- `vtl_instances` is the module's parameter in sysfs. `set_instances` and `resize_geometry` are the
-- two ioctls on the 384 bytes of the request. The others say whether they succeed:
-- `rescan_hosts` is `scsi_rescan_vtl_hosts`, `kernelctl_reload` is `run_vtl_kernelctl_reload`,
-- `run_script` the reload script with the spec. `cache_writable` says whether writing the cache of
-- the last spec succeeds, and `cache_left` what a write that fails leaves of it, which may be empty
-- or cut short.
pub record Host (K : Type 0) : Type 0 where
  pub probes : Probes K
  pub vtl_instances : K → Option Text
  pub set_instances : List ℕ → K → IoResult (Unit {0}) × K
  pub resize_geometry : List ℕ → K → IoResult (Unit {0}) × K
  pub rescan_hosts : K → Bool × K
  pub kernelctl_reload : K → Bool × K
  pub run_script : Text → Text → K → Bool × K
  pub cache_writable : Bool
  pub cache_left : Option Text → Option Text

-- The keys of vtl.conf that are read.
pub record GeomConfig : Type 0 where
  pub kernel_geometry_mode : KernelGeometryMode
  pub kernel_geom_prefer_ioctl : Bool
  pub kernel_reload_on_db_change : Bool
  pub kernel_vtl_reload_script : Option Text

pub data Status : Type 0 where
  skipped spec_error rescan_only lio_exported holders_busy ioctl_ok need_reload : Status
  ioctl_unavailable ioctl_failed reload_ok hot_geom_disabled no_fallback : Status
  script_refused_no_fuser script_refused_holders script_ok script_failed : Status

pub data Rescan : Type 0 where
  rescan_skipped rescan_done rescan_failed : Rescan

-- `KernelGeomSync` without the text of its detail.
pub record KernelGeomSync : Type 0 where
  pub kernel_geom : Status
  pub scsi_rescan : Option Rescan

-- The catalog, the kernel and the file that caches the last spec.
pub record Site (K : Type 0) : Type 0 where
  pub world : World K
  pub cache : Option Text

abbrev pub Outcome : Type 0 → Type 0
Outcome K = KernelGeomSync × Site K

abbrev pub status : {K : Type 0} → Status → Site K → Outcome K
status st w = (record { kernel_geom = st; scsi_rescan = none }, w)

abbrev pub with_kernel : {K : Type 0} → K → Site K → Site K
with_kernel k w = record w { world = record w.world { kernel = k } }

-- A full spec leaves no room for the NUL.
abbrev pub vtl_inst_spec_max : ℕ
vtl_inst_spec_max = 384

unfoldable pub apply_spec_ioctl :
    {K : Type 0} → (List ℕ → K → IoResult (Unit {0}) × K) → Text → K → IoResult (Unit {0}) × K
unfolding zeros
apply_spec_ioctl ioctl spec k =
    if leb vtl_inst_spec_max (length spec)
    then (failed invalid_input, k)
    else ioctl (spec ++ zeros (vtl_inst_spec_max - length spec)) k

abbrev pub ioctl_error_benign : IoError → Bool
ioctl_error_benign enotty = true
ioctl_error_benign enodev = true
ioctl_error_benign not_found = true
ioctl_error_benign unsupported = true
ioctl_error_benign e = false

abbrev pub is_ebusy : IoError → Bool
is_ebusy ebusy = true
is_ebusy e = false

abbrev pub is_einval : IoError → Bool
is_einval einval = true
is_einval e = false

abbrev pub is_fixed : KernelGeometryMode → Bool
is_fixed fixed = true
is_fixed legacy = false

abbrev pub to_option : Result Text → Option Text
to_option (ok s) = some s
to_option (err e) = none

abbrev pub or_else : Option Text → Option Text → Option Text
or_else none b = b
or_else (some s) b = some s

abbrev pub padded_for : Option Text → Option ℕ → Catalog → Option Text
padded_for sysfs none db = none
padded_for sysfs (some n) db = to_option (build_vtl_instances_kernel_spec_padded sysfs n db)

abbrev pub matches_cache : Option Text → Text → Bool
matches_cache none spec = false
matches_cache (some cached) spec = text_eq (trim cached) (trim spec)
