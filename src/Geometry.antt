-- ===== src/Geometry.antt =====
-- Which libraries the kernel knows, in which order, and with how many drives and slots: the queries
-- of vtladm-rc/userspace/src/main.rs and vtladm-rc/userspace/src/robot_sync.rs on `vtl_libraries`.
-- AUTOINCREMENT makes the ids grow along the table, so `ORDER BY id` is the order of the rows.
pub mod Order
pub mod Spec
pub mod RoundTrip
pub mod Clamped
pub mod Padded
use vtladm.Prelude.{
  ℕ, Text, ◌+◌, ◌≡◌, Bool, true, false, ◌&&◌, not, List, [], ◌∷◌, Option, none, some, ◌==◌, suc,
  ltb, leb, if◌then◌else◌, length, keep, take, map,
}
use vtladm.Errors.{
  Result, ok, err, ◌>>=◌, ok_or, library_not_found, invalid_parameter, no_online_library,
  no_geometry,
}
use vtladm.Catalog.{Catalog, Library, is_kernel_exported_library_name}
use vtladm.Catalog.Bays.{Bay}

-- `VTL_KERNEL_MAX_ONLINE_LIBRARIES`, `…_MAX_DRIVES_PER_LIB`, `…_MAX_DATA_SLOTS_PER_LIB`.
abbrev pub max_online_libraries : ℕ
max_online_libraries = 8

abbrev pub max_drives_per_lib : ℕ
max_drives_per_lib = 8

abbrev pub max_data_slots_per_lib : ℕ
max_data_slots_per_lib = 256

-- `SELECT id FROM vtl_libraries WHERE name NOT IN (…) ORDER BY id ASC`.
unfoldable pub online_ids : List Library → List ℕ
online_ids [] = []
online_ids (l ∷ ls) =
    if is_kernel_exported_library_name l.name then l.id ∷ online_ids ls else online_ids ls

unfoldable pub count_exported_online_libraries : Catalog → ℕ
unfolding online_ids
count_exported_online_libraries db = length (online_ids db.libraries)

-- `SELECT COUNT(*) FROM drives` and `FROM slots … is_import_export = 0`, of one library.
unfoldable pub count_drives : Catalog → ℕ → ℕ
count_drives db lib = length (keep (λ b. b.library_id == lib) db.drives)

unfoldable pub count_data_slots : Catalog → ℕ → ℕ
count_data_slots db lib = length (keep (λ b. b.library_id == lib && not b.column) db.slots)

-- A library with no drive and no data slot has no segment.
unfoldable pub is_shell : Catalog → ℕ → Bool
unfolding count_drives count_data_slots
is_shell db lib = count_drives db lib == 0 && count_data_slots db lib == 0

unfoldable pub online_library_ids_for_kernel_sync : Catalog → List ℕ
unfolding online_ids is_shell keep
online_library_ids_for_kernel_sync db = keep (λ id. not (is_shell db id)) (online_ids db.libraries)

abbrev next_index : Option ℕ → Option ℕ
next_index none = none
next_index (some i) = some (suc i)

-- `iter().position(|id| id == lib)`.
unfoldable pub position : ℕ → List ℕ → Option ℕ
position lib [] = none
position lib (id ∷ ids) = if id == lib then some 0 else next_index (position lib ids)

-- The code's error names no library: the model's has an empty name.
unfoldable pub library_kernel_instance_index : Catalog → ℕ → Result ℕ
unfolding online_library_ids_for_kernel_sync position
library_kernel_instance_index db lib =
    ok_or (position lib (online_library_ids_for_kernel_sync db)) (library_not_found [])

unfoldable pub online_library_export_index : Catalog → ℕ → Result ℕ
unfolding online_ids position
online_library_export_index db lib =
    ok_or (position lib (online_ids db.libraries)) (library_not_found [])

-- `clamp(1, max)`.
abbrev pub clamp : ℕ → ℕ → ℕ
clamp max n = if ltb n 1 then 1 else if ltb max n then max else n

abbrev segment : Catalog → ℕ → ℕ × ℕ
segment db id = (
  clamp max_drives_per_lib (count_drives db id),
  clamp max_data_slots_per_lib (count_data_slots db id),
)

unfoldable pub segments : Catalog → List ℕ → List (ℕ × ℕ)
segments db [] = []
segments db (id ∷ ids) = if is_shell db id then segments db ids else segment db id ∷ segments db ids

abbrev at_least_one : List (ℕ × ℕ) → Result (List (ℕ × ℕ))
at_least_one [] = err (invalid_parameter no_geometry)
at_least_one (p ∷ ps) = ok (p ∷ ps)

abbrev from_ids : Catalog → List ℕ → Result (List (ℕ × ℕ))
from_ids db [] = err (invalid_parameter no_online_library)
from_ids db (id ∷ ids) = at_least_one (segments db (id ∷ ids))

-- `build_vtl_instances_kernel_spec`: the pairs, which the code prints as `DxS` with commas between.
unfoldable pub build_vtl_instances_kernel_spec : Catalog → Result (List (ℕ × ℕ))
unfolding segments online_ids
build_vtl_instances_kernel_spec db =
    from_ids db (take max_online_libraries (online_ids db.libraries))
