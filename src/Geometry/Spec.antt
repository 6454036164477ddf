-- ===== src/Geometry/Spec.antt =====
-- The text form `DxS,DxS,…` of the kernel's spec in vtladm-rc/userspace/src/main.rs: printing,
-- parsing, and the spec of plan B, which has one segment for each host that the kernel loaded.
use vtladm.Prelude.{
  ℕ, Text, ◌-◌, List, [], ◌∷◌, ◌++◌, Option, none, some, ltb, zero, suc, if◌then◌else◌, length,
  codes, map, ℤ, pos, negsuc, decimal, parse_i32,
}
use vtladm.Errors.{Result, ok, ◌>>=◌}
use vtladm.Catalog.{Catalog}
use vtladm.Settings.{trim, to_ascii_lowercase, is_one_of}
use vtladm.Strings.{split, split_once, join, filter_nonempty}
use vtladm.Geometry.{
  max_online_libraries, max_drives_per_lib, max_data_slots_per_lib, clamp,
  build_vtl_instances_kernel_spec,
}

pub data KernelGeometryMode : Type 0 where
  fixed legacy : KernelGeometryMode

abbrev fixed_words : List Text
fixed_words = codes "fixed" ∷ codes "plan_b" ∷ codes "semi_thin" ∷ []

abbrev legacy_words : List Text
legacy_words = codes "legacy" ∷ codes "dynamic" ∷ codes "hot" ∷ []

-- `KernelGeometryMode::parse`.
unfoldable pub parse_mode : Text → Option KernelGeometryMode
unfolding trim to_ascii_lowercase is_one_of
parse_mode s =
    let t = to_ascii_lowercase (trim s) in
    if is_one_of t fixed_words
    then some fixed
    else if is_one_of t legacy_words
    then some legacy
    else none

abbrev pub segment_text : ℕ × ℕ → Text
segment_text (d, s) = decimal d ++ (b'x' ∷ decimal s)

abbrev pub spec_text : List (ℕ × ℕ) → Text
spec_text segs = join (codes ",") (map segment_text segs)

-- The text that `build_vtl_instances_kernel_spec` returns.
unfoldable pub built_spec_text : Catalog → Result Text
unfolding join decimal build_vtl_instances_kernel_spec
built_spec_text db = do segs ← build_vtl_instances_kernel_spec db; ok (spec_text segs)

unfoldable pub repeat : {A : Type 0} → ℕ → A → List A
repeat zero a = []
repeat (suc n) a = a ∷ repeat n a

unfoldable pub build_plan_b_insmod_spec : Text
unfolding repeat join
build_plan_b_insmod_spec = join (codes ",") (repeat max_online_libraries (codes "8x256"))

unfoldable pub trim_all : List Text → List Text
unfolding trim
trim_all [] = []
trim_all (p ∷ ps) = trim p ∷ trim_all ps

-- The pieces between commas, trimmed, without the empty ones.
abbrev pub comma_parts : Text → List Text
comma_parts spec = filter_nonempty (trim_all (split b',' spec))

unfoldable pub count_vtl_instances_segments : Text → ℕ
unfolding split trim_all filter_nonempty
count_vtl_instances_segments spec = length (comma_parts spec)

abbrev not_zero : ℕ → Option ℕ
not_zero zero = none
not_zero (suc n) = some (suc n)

-- The argument is what /sys/module/vtl/parameters/vtl_instances reads as, `none` if it does not.
unfoldable pub read_loaded_kernel_vtl_host_count : Option Text → Option ℕ
unfolding trim count_vtl_instances_segments
read_loaded_kernel_vtl_host_count none = none
read_loaded_kernel_vtl_host_count (some s) = not_zero (count_vtl_instances_segments (trim s))

-- `clamp(1, max)` of an `i32`.
abbrev pub clamp_i32 : ℕ → ℤ → ℕ
clamp_i32 max (pos n) = clamp max n
clamp_i32 max (negsuc n) = 1

abbrev pub clamped : Option ℤ → Option ℤ → Option (ℕ × ℕ)
clamped none s = none
clamped (some d) none = none
clamped (some d) (some s) =
    some (clamp_i32 max_drives_per_lib d, clamp_i32 max_data_slots_per_lib s)

abbrev pub of_halves : Option (Text × Text) → Option (ℕ × ℕ)
of_halves none = none
of_halves (some (a, b)) = clamped (parse_i32 (trim a)) (parse_i32 (trim b))

-- A piece that is empty has no `x`.
unfoldable pub parse_segment : Text → Option (ℕ × ℕ)
unfolding trim split_once parse_i32
parse_segment tok = of_halves (split_once b'x' (trim tok))

abbrev pub push_some : Option (ℕ × ℕ) → List (ℕ × ℕ) → List (ℕ × ℕ)
push_some none segs = segs
push_some (some p) segs = p ∷ segs

unfoldable pub parse_segments : List Text → List (ℕ × ℕ)
unfolding parse_segment
parse_segments [] = []
parse_segments (tok ∷ toks) = push_some (parse_segment tok) (parse_segments toks)

unfoldable pub parse_vtl_instances_segments : Text → List (ℕ × ℕ)
unfolding split parse_segments
parse_vtl_instances_segments spec = parse_segments (split b',' spec)

abbrev pub some_nonempty : List (ℕ × ℕ) → Option (List (ℕ × ℕ))
some_nonempty [] = none
some_nonempty (p ∷ ps) = some (p ∷ ps)

unfoldable pub read_live_kernel_vtl_instances_segments : Option Text → Option (List (ℕ × ℕ))
unfolding trim parse_vtl_instances_segments
read_live_kernel_vtl_instances_segments none = none
read_live_kernel_vtl_instances_segments (some s) =
    some_nonempty (parse_vtl_instances_segments (trim s))

abbrev pub plan_b_idle_host_segment : ℕ × ℕ
plan_b_idle_host_segment = (max_drives_per_lib, max_data_slots_per_lib)

abbrev pub unwrap_or_default : Option (List (ℕ × ℕ)) → List (ℕ × ℕ)
unwrap_or_default none = []
unwrap_or_default (some l) = l

-- `if live.len() < n { live.resize(n, fill) }`.
abbrev pub at_least : ℕ → List (ℕ × ℕ) → List (ℕ × ℕ)
at_least n live =
    if ltb (length live) n then live ++ repeat (n - length live) plan_b_idle_host_segment else live

-- The loop over the hosts: `i` is the part of the database at `i`, else the live segment at `i`,
-- else an idle host. Both lists move on with `i`.
unfoldable pub padded_parts : ℕ → List Text → List (ℕ × ℕ) → List Text
unfolding decimal
padded_parts zero parts live = []
padded_parts (suc n) (p ∷ parts) [] = p ∷ padded_parts n parts []
padded_parts (suc n) (p ∷ parts) (l ∷ live) = p ∷ padded_parts n parts live
padded_parts (suc n) [] (l ∷ live) = segment_text l ∷ padded_parts n [] live
padded_parts (suc n) [] [] = segment_text plan_b_idle_host_segment ∷ padded_parts n [] []

unfoldable pub build_vtl_instances_kernel_spec_padded : Option Text → ℕ → Catalog → Result Text
unfolding built_spec_text split trim_all filter_nonempty repeat padded_parts join
    read_live_kernel_vtl_instances_segments
build_vtl_instances_kernel_spec_padded sysfs n db = do
  compact ← built_spec_text db
  ok (
      join (codes ",") (
        padded_parts n (comma_parts compact)
          (at_least n (unwrap_or_default (read_live_kernel_vtl_instances_segments sysfs)))))
