-- ===== src/Examples/Libraries.antt =====
-- Making and deleting libraries in the stocked catalog.
use vtladm.Prelude.{
  ℕ, suc, ◌≡◌, ◌≤◌, refl, arith, true, false, [], none, codes, text_eq, keep, all, length, pos,
  decimal, digits_onto,
}
use vtladm.Errors.{Result, ok, err, ebusy}
use vtladm.Catalog.{
  has_id, find_library, resolve_library_id, is_test_only_library_name,
  is_kernel_exported_library_name,
}
use vtladm.Catalog.Bays.{bay_at, clear_library}
use vtladm.Catalog.Tapes.{find_named}
use vtladm.Robot.Valid.{IsValid}
use vtladm.Changer.{done, failed}
use vtladm.Geometry.{
  online_ids, count_exported_online_libraries, count_drives, count_data_slots, segments, is_shell,
  build_vtl_instances_kernel_spec,
}
use vtladm.Geometry.Spec.{built_spec_text}
use vtladm.Strings.{join}
use vtladm.Libraries.{
  Tables, create_rows, delete_rows, check_deletable, insert_bays, insert_bay, without_library,
  is_tape_of, count_slots,
}
use vtladm.Libraries.Create.{create_rows-IsValid}
use vtladm.Libraries.Geometry.{created_bays, mail_slots_left, mail}
use vtladm.Libraries.Delete.{delete_rows-IsValid}
use vtladm.Libraries.Online.{UniqueLibraries, delete_rows_leaves_online}
use vtladm.Libraries.Whole.{Shop, Dirs, create_named_library, delete_named_library}
use vtladm.Libraries.Keeps.{create_library-KeepsValid, delete_library-KeepsValid}
use vtladm.Shelves.{shelf_row, insert_shelf}
use vtladm.Examples.{stocked, marstor}
use vtladm.Examples.Robot.{stocked-IsValid}
use vtladm.Examples.Kernel.{counting, all_on}
use vtladm.Examples.Reload.{host, prefers, here}

abbrev tables : Tables
tables = record { db = stocked; config = []; tape_tags = [] }

abbrev or_tables : Result Tables → Tables
or_tables (ok t) = t
or_tables (err e) = tables

abbrev made : Tables
made = or_tables (create_rows (codes "beta") 1 2 tables)

created_bays_example :
    (count_drives made.db 3 ≡ 1)
    × (count_data_slots made.db 3 ≡ 2)
    × (length (keep (mail 3) made.db.slots) ≡ mail_slots_left 2)
unfolding create_rows find_library count_exported_online_libraries shelf_row insert_shelf
    insert_bays insert_bay bay_at count_slots all built_spec_text build_vtl_instances_kernel_spec
    segments is_shell count_drives count_data_slots keep online_ids is_kernel_exported_library_name
    is_test_only_library_name text_eq join decimal digits_onto
created_bays_example = created_bays (codes "beta") 1 2 tables refl refl refl refl

abbrev left : Tables
left = or_tables (delete_rows (codes "beta") made)

made-UniqueLibraries : UniqueLibraries made.db.libraries
unfolding create_rows find_library count_exported_online_libraries shelf_row insert_shelf
    insert_bays insert_bay bay_at count_slots UniqueLibraries has_id built_spec_text
    build_vtl_instances_kernel_spec segments is_shell count_drives count_data_slots keep online_ids
    is_kernel_exported_library_name is_test_only_library_name text_eq join decimal digits_onto
made-UniqueLibraries = (refl, (refl, (refl, tt)))

delete_rows_leaves_online_example : 1 ≤ count_exported_online_libraries left.db
unfolding create_rows delete_rows without_library clear_library is_tape_of check_deletable
    resolve_library_id find_library count_exported_online_libraries shelf_row insert_shelf
    insert_bays insert_bay bay_at count_slots built_spec_text build_vtl_instances_kernel_spec
    segments is_shell count_drives count_data_slots keep online_ids is_kernel_exported_library_name
    is_test_only_library_name text_eq join decimal digits_onto
delete_rows_leaves_online_example =
    delete_rows_leaves_online (codes "beta") made made-UniqueLibraries refl (omega arith)

made-IsValid : IsValid made.db
unfolding create_rows find_library count_exported_online_libraries shelf_row insert_shelf
    insert_bays insert_bay bay_at count_slots built_spec_text build_vtl_instances_kernel_spec
    segments is_shell count_drives count_data_slots keep online_ids is_kernel_exported_library_name
    is_test_only_library_name text_eq join decimal digits_onto
made-IsValid = create_rows-IsValid (codes "beta") 1 2 tables refl stocked-IsValid

delete_rows-IsValid_example :
    IsValid left.db
    × (find_named 3 (codes "t1") left.db.tapes ≡ none)
    × (find_named 1 (codes "t1") left.db.tapes ≡ find_named 1 (codes "t1") made.db.tapes)
    × (bay_at 1 0 left.db.slots ≡ bay_at 1 0 made.db.slots)
    × (bay_at 1 0 left.db.drives ≡ bay_at 1 0 made.db.drives)
unfolding create_rows delete_rows without_library clear_library is_tape_of check_deletable
    resolve_library_id find_library count_exported_online_libraries shelf_row insert_shelf
    insert_bays insert_bay bay_at count_slots built_spec_text build_vtl_instances_kernel_spec
    segments is_shell count_drives count_data_slots keep online_ids is_kernel_exported_library_name
    is_test_only_library_name text_eq join decimal digits_onto
delete_rows-IsValid_example =
    delete_rows-IsValid (codes "beta") made 3 1 0 (codes "t1") refl refl made-IsValid refl

abbrev shop : Shop ℕ
shop = record { site = here; config = []; tape_tags = []; current_library = marstor }

abbrev dirs : Dirs ℕ
dirs = record {
  create_dir_all = λ dir k. (done tt, suc k);
  dir_exists = λ dir k. true;
  remove_dir_all = λ dir k. (failed ebusy, suc k);
  remove_file = λ path k. (done tt, suc k);
}

create_library-KeepsValid_example :
    IsValid
      (create_named_library dirs
        (host false false)
        counting
        all_on
        prefers
        (codes "beta")
        (pos 1)
        (pos 2)
        shop).1.site.world.db
create_library-KeepsValid_example =
    create_library-KeepsValid dirs (host false false) counting all_on prefers (codes "beta") (pos 1)
      (pos 2) shop stocked-IsValid

delete_library-KeepsValid_example :
    IsValid
      (delete_named_library dirs
        (host false false)
        counting
        all_on
        prefers
        marstor
        shop).1.site.world.db
delete_library-KeepsValid_example =
    delete_library-KeepsValid dirs (host false false) counting all_on prefers marstor shop
      stocked-IsValid
