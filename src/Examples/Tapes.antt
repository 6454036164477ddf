-- ===== src/Examples/Tapes.antt =====
-- Making tapes in the stocked library, on a disk that takes them.
use vtladm.Prelude.{
  ℕ, Text, ◌≡◌, refl, arith, true, false, List, [], ◌∷◌, none, some, codes, text_eq, all, lookup,
  parse_i32, read_number, read_digits, decimal, digits_onto, if◌then◌else◌, ◌==◌, length,
}
use vtladm.Errors.{Result, ok}
use vtladm.Catalog.{
  Catalog, has_id, find_library, resolve_library_id, find_default_shelf, default_shelf_id,
}
use vtladm.Catalog.Bays.{is_some}
use vtladm.Catalog.Tapes.{Tape, find_tape, find_named}
use vtladm.Robot.Valid.{places}
use vtladm.Changer.{done}
use vtladm.Changer.World.{World}
use vtladm.Names.{is_plain, validate_tape_name, contains, sanitize_lib_dir_component}
use vtladm.Import.{barcode_taken}
use vtladm.Shelves.{has_duplicate}
use vtladm.Strings.{strip_prefix}
use vtladm.Tapes.{
  Machine, create_tape, make_tape, check_create, assert_tape_name_globally_unique, used_elsewhere,
  insert_tape, generate_barcode, hex_onto, create_tapes_batch, auto_names,
}
use vtladm.Tapes.Quota.{
  Quotas, quota, parsed, check_quota, check_total, check_count, lib_config_get, sum_capacity,
  count_in_library,
}
use vtladm.Tapes.Auto.{
  max_suffix, max_auto_tape_suffix_for_library, auto_tape_name_prefix, allocate_auto_tape_names,
  names_from, padded, zeros,
}
use vtladm.Tapes.Create.{UniqueNames, is_used}
use vtladm.Tapes.Sound.{IsSound}
use vtladm.Tapes.Made.{create_tape_makes, create_tape_within_quota, fits_total, fits_count}
use vtladm.Tapes.Batch.{create_batch-KeepsSound}
use vtladm.Tapes.Fresh.{auto_names_fresh, is_free}
use vtladm.Examples.{stocked, marstor}
use vtladm.Examples.Robot.{stocked-IsValid}

abbrev machine : Machine ℕ
machine = record {
  files = record {
    exists = λ path k. false;
    create_dir_all = λ dir k. (done tt, k);
    rename = λ old path k. (done tt, k);
  };
  create = λ path k. (done tt, k);
  set_len = λ path n k. (done tt, k);
  random = λ k. (k, k);
}

-- At most 5000 bytes and 7 tapes for a library; a size is decimal.
abbrev decimal_size : Text → Result ℕ
decimal_size s = ok 5000

abbrev quotas : Quotas
quotas = record {
  library_config = [];
  config = (codes "quota_max_total_size", codes "5000") ∷ (codes "quota_max_tapes", codes "7") ∷ [];
  parse_size = decimal_size;
}

abbrev shelf_dir : Text
shelf_dir = codes "/tapes"

abbrev before : World ℕ
before = record { db = stocked; kernel = 10 }

stocked-IsSound : IsSound stocked
unfolding all has_id UniqueNames is_used text_eq
stocked-IsSound = record {
  valid = stocked-IsValid;
  ids_below = refl;
  housed = refl;
  names = (refl, (refl, (refl, tt)));
}

abbrev t4 : Text
t4 = codes "t4"

passes : (create_tape machine quotas shelf_dir marstor t4 1024 none before).0 ≡ ok tt
unfolding create_tape make_tape check_create validate_tape_name contains check_quota check_total
    check_count lib_config_get lookup parse_i32 read_number read_digits sum_capacity
    count_in_library resolve_library_id find_library text_eq assert_tape_name_globally_unique
    used_elsewhere has_id find_named default_shelf_id find_default_shelf insert_tape barcode_taken
    generate_barcode hex_onto all
passes = refl

abbrev after : Catalog
after = (create_tape machine quotas shelf_dir marstor t4 1024 none before).1.db

create_tape_makes_example :
    (r : Tape) × (find_named 1 t4 after.tapes ≡ some r)
    × (r.capacity_bytes ≡ 1024)
    × (is_some r.shelf_id ≡ true)
    × (find_tape r.id stocked.tapes ≡ none)
    × (places 4 after ≡ (if 4 == r.id then 1 else places 4 stocked))
unfolding resolve_library_id find_library text_eq
create_tape_makes_example =
    create_tape_makes machine quotas shelf_dir marstor t4 1024 none before 1 refl passes 4
      stocked-IsSound

create_tape_within_quota_example :
    (fits_total quotas (quota quotas 1 (codes "quota_max_total_size")) (sum_capacity 1 after.tapes)
      ≡ true)
    × (fits_count
          (parsed (quota quotas 1 (codes "quota_max_tapes")))
          (count_in_library 1 after.tapes)
        ≡ true)
unfolding resolve_library_id find_library text_eq sum_capacity count_in_library
create_tape_within_quota_example =
    create_tape_within_quota machine quotas shelf_dir marstor t4 1024 none before 1 refl passes
      (omega arith) (omega arith)

create_batch-KeepsSound_example :
    IsSound
      (create_tapes_batch machine quotas shelf_dir marstor none
        ((t4, codes "1") ∷ (codes "t1", codes "1") ∷ [])
        before).1.db
create_batch-KeepsSound_example =
    create_batch-KeepsSound machine quotas shelf_dir marstor none
      ((t4, codes "1") ∷ (codes "t1", codes "1") ∷ []) before stocked-IsSound

abbrev two : List Text
two = codes "marstor_tape01" ∷ codes "marstor_tape02" ∷ []

auto_names_fresh_example :
    (length two ≡ 2) × (has_duplicate two ≡ false) × (all (is_free 1 stocked.tapes) two ≡ true)
unfolding resolve_library_id find_library text_eq auto_names max_auto_tape_suffix_for_library
    max_suffix auto_tape_name_prefix sanitize_lib_dir_component strip_prefix
    allocate_auto_tape_names names_from padded zeros decimal digits_onto all read_number read_digits
    is_plain
auto_names_fresh_example = auto_names_fresh marstor 2 1 stocked refl refl (omega arith)
