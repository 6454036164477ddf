-- ===== src/Examples/Reload.antt =====
-- Bringing the kernel's geometry up to the stocked catalog, on hosts that answer simply.
use vtladm.Prelude.{
  ℕ, suc, Text, ◌≡◌, refl, arith, Bool, true, false, [], ◌∷◌, none, some, codes, text_eq, keep,
  length, decimal, digits_onto, parse_i32, read_number, read_digits, if◌then◌else◌,
}
use vtladm.Errors.{ok}
use vtladm.Catalog.{is_test_only_library_name, is_kernel_exported_library_name}
use vtladm.Settings.{trim, trim_start, trim_end, skip_space}
use vtladm.Robot.Valid.{IsValid}
use vtladm.Changer.{done}
use vtladm.Geometry.{
  online_ids, count_drives, count_data_slots, segments, is_shell, build_vtl_instances_kernel_spec,
}
use vtladm.Geometry.Order.{get_elem?}
use vtladm.Geometry.Spec.{
  legacy, built_spec_text, trim_all, repeat, padded_parts, parse_segments, parse_segment,
  read_live_kernel_vtl_instances_segments, parse_vtl_instances_segments,
  build_vtl_instances_kernel_spec_padded,
}
use vtladm.Geometry.Padded.{padded_hosts, host_segment}
use vtladm.Geometry.Clamped.{live_segments}
use vtladm.Pull.Whole.{pull_library-KeepsValid}
use vtladm.Align.{pull_library_inventory_from_kernel}
use vtladm.Strings.{split, split_once, join, filter_nonempty}
use vtladm.Holders.{Probes}
use vtladm.Reload.Parts.{Host, GeomConfig, Site}
use vtladm.Reload.{maybe_reload_kernel_vtl_after_db_change, wanted_spec}
use vtladm.Reload.Ends.{took}
use vtladm.Reload.Cache.{reload_cache, cached}
use vtladm.Examples.{stocked}
use vtladm.Examples.Robot.{stocked-IsValid}
use vtladm.Examples.Kernel.{counting, all_on}

-- One tape device, which is in use if the flag says so, and which LIO exports if the other does.
abbrev probes : Bool → Bool → Probes ℕ
probes used exported = record {
  env = λ name. none;
  fuser_available = λ k. true;
  lsscsi = λ k. some (codes "[3:0:0:1] tape VTL /dev/st0");
  fuser_holds = λ path k. used;
  configfs_files = λ k. [];
  targetcli = λ k. if exported then some (codes "o- pscsi /dev/st0") else none;
}

-- The kernel counts the calls.
abbrev pub host : Bool → Bool → Host ℕ
host used exported = record {
  probes = probes used exported;
  vtl_instances = λ k. some (codes "2x3,8x256");
  set_instances = λ spec k. (done tt, suc k);
  resize_geometry = λ spec k. (done tt, suc k);
  rescan_hosts = λ k. (true, suc k);
  kernelctl_reload = λ k. (true, suc k);
  run_script = λ path spec k. (true, suc k);
  cache_writable = true;
  cache_left = λ before. none;
}

abbrev pub prefers : GeomConfig
prefers = record {
  kernel_geometry_mode = legacy;
  kernel_geom_prefer_ioctl = true;
  kernel_reload_on_db_change = false;
  kernel_vtl_reload_script = none;
}

abbrev pub here : Site ℕ
here = record { world = record { db = stocked; kernel = 0 }; cache = none }

abbrev spec : Text
spec = codes "2x3"

stocked-spec : built_spec_text stocked ≡ ok spec
unfolding built_spec_text build_vtl_instances_kernel_spec segments is_shell count_drives
    count_data_slots keep online_ids is_kernel_exported_library_name is_test_only_library_name
    text_eq join decimal digits_onto
stocked-spec = refl

wanted : (a b : Bool) → wanted_spec (host a b) counting all_on prefers here ≡ some spec
wanted a b = rw stocked-spec refl

reload_cache_example :
    (maybe_reload_kernel_vtl_after_db_change
      (host false false)
      counting
      all_on
      prefers
      here).1.cache
    ≡ cached (host false false) counting all_on prefers spec none (
        took
          (maybe_reload_kernel_vtl_after_db_change
            (host false false)
            counting
            all_on
            prefers
            here).0.kernel_geom)
reload_cache_example =
    reload_cache (host false false) counting all_on prefers here (wanted false false)

-- The kernel shows two hosts, and four are asked for.
padded_hosts_example :
    (length (parse_vtl_instances_segments (codes "2x3,8x256,8x256,8x256")) ≡ 4)
    × (get_elem? (parse_vtl_instances_segments (codes "2x3,8x256,8x256,8x256")) 1
        ≡ some (host_segment ((2, 3) ∷ []) (live_segments (some (codes "1x1,8x256"))) 1))
unfolding build_vtl_instances_kernel_spec_padded read_live_kernel_vtl_instances_segments
    parse_vtl_instances_segments parse_segments parse_segment split split_once trim trim_start
    skip_space trim_end trim_all filter_nonempty repeat padded_parts parse_i32 read_number
    read_digits built_spec_text build_vtl_instances_kernel_spec segments is_shell count_drives
    count_data_slots keep online_ids is_kernel_exported_library_name is_test_only_library_name
    text_eq join decimal digits_onto
padded_hosts_example = padded_hosts (some (codes "1x1,8x256")) 4 1 stocked refl refl (omega arith)

pull_library-KeepsValid_example :
    IsValid (pull_library_inventory_from_kernel counting all_on 1 here.world).1.db
pull_library-KeepsValid_example =
    pull_library-KeepsValid counting all_on 1 here.world stocked-IsValid
