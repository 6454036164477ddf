-- ===== src/Tapes.antt =====
-- Making tapes: `create_tape`, `check_quota`, `create_tapes_batch` and
-- `create_auto_named_tapes_batch` of vtladm-rc/userspace/src/main.rs. The current library, which the
-- batches set and restore, is an argument. Printing and logging are left out.
pub mod Quota
pub mod Auto
pub mod Create
pub mod Sound
pub mod Fresh
pub mod Batch
pub mod Made
use vtladm.Prelude.{
  ℕ, Text, ◌+◌, ◌%◌, ◌/◌, Bool, true, false, ◌&&◌, ◌||◌, not, List, [], ◌∷◌, ◌++◌, Option, none,
  some, ◌==◌, leb, ltb, zero, suc, if◌then◌else◌, text_eq, codes, ℤ, pos, negsuc, length, Dict,
  lookup, parse_i32,
}
use vtladm.Errors.{
  VtlError, Result, ok, err, refuse, ok_or, io_error, database_error, invalid_parameter, eacces,
  permission_denied, quota_exceeded, total_size, tape_count, name_used_elsewhere, name_used_here,
  empty_batch, count_out_of_range,
}
use vtladm.Errors
use vtladm.Catalog.{
  Catalog, Library, has_id, resolve_library_id, resolve_shelf_id, default_shelf_id,
}
use vtladm.Catalog.Tapes.{Tape, find_named}
use vtladm.Catalog.Bays.{is_some}
use vtladm.Names.{validate_tape_name}
use vtladm.Libraries.{Setting}
use vtladm.Import.{barcode_taken}
use vtladm.Offline.{Files, on_disk, tape_image_path, library_dir}
use vtladm.Changer.{IoResult, done, failed}
use vtladm.Changer.World.{World, M, ◌>>=◌, ◌>>◌, pure, lift, query, transact}
use vtladm.Handlers.{with_unit}
use Quota.{Quotas, check_quota}
use Auto.{max_auto_tape_suffix_for_library, allocate_auto_tape_names}

-- The files and the random numbers of the host. `create` is `File::create`.
pub record Machine (K : Type 0) : Type 0 where
  pub files : Files K
  pub create : Text → K → IoResult (Unit {0}) × K
  pub set_len : Text → ℕ → K → IoResult (Unit {0}) × K
  pub random : K → ℕ × K

abbrev pub hex_digit : ℕ → ℕ
hex_digit d = if ltb d 10 then 48 + d else 55 + d

-- The lowest `k` hexadecimal digits of `n` in front of `s`.
unfoldable pub hex_onto : ℕ → ℕ → Text → Text
hex_onto zero n s = s
hex_onto (suc k) n s = hex_onto k (n / 16) (hex_digit (n % 16) ∷ s)

-- `format!("VTL{:06X}", n)` of a `u32`: six digits, or seven or eight.
unfoldable pub generate_barcode : ℕ → Text
unfolding hex_onto
generate_barcode n =
    let width = if ltb n 16777216 then 6 else if ltb n 268435456 then 7 else 8 in
    codes "VTL" ++ hex_onto width n []

-- A row of the join of `tapes` and `vtl_libraries` with the name, in another library.
unfoldable pub used_elsewhere : List Library → ℕ → Text → List Tape → Bool
unfolding has_id
used_elsewhere libs lib name [] = false
used_elsewhere libs lib name (r ∷ rs) =
    text_eq r.name name && not (r.library_id == lib) && has_id r.library_id libs
    || used_elsewhere libs lib name rs

unfoldable pub assert_tape_name_globally_unique : Catalog → Text → ℕ → Result (Unit {0})
unfolding used_elsewhere
assert_tape_name_globally_unique db name lib =
    refuse (used_elsewhere db.libraries lib name db.tapes) (invalid_parameter name_used_elsewhere)

abbrev pub shelf_for : Catalog → ℕ → Option Text → Result ℕ
shelf_for db lib none = default_shelf_id db lib
shelf_for db lib (some name) = resolve_shelf_id db lib name

-- The checks of `create_tape`: the ids of the library and of the shelf.
unfoldable pub check_create : Quotas → Text → Text → ℕ → Option Text → Catalog → Result (ℕ × ℕ)
unfolding validate_tape_name check_quota assert_tape_name_globally_unique
check_create q lib_name name size shelf_name db = Errors.◌>>◌ (validate_tape_name name) (
    Errors.◌>>◌ (check_quota q lib_name size db) (
      Errors.◌>>=◌ (resolve_library_id db lib_name) λ lib.
        Errors.◌>>◌ (assert_tape_name_globally_unique db name lib) (
          Errors.◌>>◌
            (refuse (is_some (find_named lib name db.tapes)) (invalid_parameter name_used_here))
            (Errors.◌>>=◌ (shelf_for db lib shelf_name) λ shelf. ok (lib, shelf)))))

abbrev pub new_tape : ℕ → ℕ → ℕ → Text → Text → ℕ → Text → Tape
new_tape id lib shelf barcode name size path = record {
  id = id;
  library_id = lib;
  shelf_id = some shelf;
  barcode = barcode;
  name = name;
  slot = none;
  capacity_bytes = size;
  used_bytes = 0;
  image_path = path;
}

-- The `INSERT`. A size above the largest `i64` is refused, as are both UNIQUE constraints.
unfoldable pub insert_tape : ℕ → ℕ → Text → Text → ℕ → Text → Catalog → Result Catalog
unfolding barcode_taken find_named
insert_tape lib shelf barcode name size path db =
    Errors.◌>>◌
      (refuse
        (leb 9223372036854775808 size
          || is_some (find_named lib name db.tapes)
          || barcode_taken lib barcode db.tapes)
        database_error)
      (ok (record db {
        tapes = db.tapes ++ new_tape db.next_tape lib shelf barcode name size path ∷ [];
        next_tape = db.next_tape + 1;
      }))

-- The names of `create_auto_named_tapes_batch`; `max_n + 1` is that of `u64`.
unfoldable pub auto_names : Text → ℕ → Catalog → Result (List Text)
unfolding max_auto_tape_suffix_for_library allocate_auto_tape_names resolve_library_id
auto_names library count db =
    Errors.◌>>◌ (refuse (count == 0) (invalid_parameter count_out_of_range)) (
      Errors.◌>>◌ (refuse (ltb 10000 count) (invalid_parameter count_out_of_range)) (
        Errors.◌>>=◌ (resolve_library_id db library) λ lib.
          let top = max_auto_tape_suffix_for_library lib library db.tapes in
          ok (allocate_auto_tape_names library ((top + 1) % 18446744073709551616) count)))

module _ {K : Type 0} (m : Machine K) (q : Quotas) (tape_dir : Text) where
  abbrev pub as_denied : IoResult (Unit {0}) → Result (Unit {0})
  as_denied (done u) = ok u
  as_denied (failed eacces) = err permission_denied
  as_denied (failed e) = err (io_error e)

  abbrev pub make_library_dir : Text → M K (Unit {0})
  make_library_dir lib_name w =
      let (r, k) = m.files.create_dir_all (library_dir m.files tape_dir lib_name) w.kernel in
      (as_denied r, record w { kernel = k })

  abbrev pub draw_barcode : M K Text
  draw_barcode w =
      let (n, k) = m.random w.kernel in (ok (generate_barcode n), record w { kernel = k })

  -- From the directory on: a file that was made stays when the row is refused.
  unfoldable pub make_tape : Text → Text → ℕ → ℕ × ℕ → M K (Unit {0})
  unfolding tape_image_path insert_tape generate_barcode
  make_tape lib_name name size (lib, shelf) =
      let path = tape_image_path m.files tape_dir lib_name name in
      do
        make_library_dir lib_name
        on_disk (m.create path)
        on_disk (m.set_len path size)
        barcode ← draw_barcode
        transact (λ db. with_unit (insert_tape lib shelf barcode name size path db))

  unfoldable pub create_tape : Text → Text → ℕ → Option Text → M K (Unit {0})
  unfolding check_create make_tape
  create_tape lib_name name size shelf =
      query (check_create q lib_name name size shelf) >>= make_tape lib_name name size

  -- The loop of a batch of one size.
  unfoldable pub create_each : Text → Option Text → ℕ → List Text → M K (Unit {0})
  unfolding create_tape
  create_each library shelf size [] = pure tt
  create_each library shelf size (name ∷ names) =
      create_tape library name size shelf >> create_each library shelf size names

  abbrev pub create_named : Text → Option Text → ℕ → List Text → M K (List Text)
  create_named library shelf size names = create_each library shelf size names >>= λ _. pure names

  unfoldable pub create_auto_named_tapes_batch : Text → Option Text → ℕ → ℕ → M K (List Text)
  unfolding auto_names create_each
  create_auto_named_tapes_batch library shelf count size =
      query (auto_names library count) >>= create_named library shelf size

  -- The loop over names with sizes.
  unfoldable pub create_items : Text → Option Text → List (Text × Text) → M K (Unit {0})
  unfolding create_tape
  create_items library shelf [] = pure tt
  create_items library shelf ((name, size_s) ∷ items) =
      (lift (q.parse_size size_s) >>= λ size. create_tape library name size shelf)
      >> create_items library shelf items

  unfoldable pub create_tapes_batch : Text → Option Text → List (Text × Text) → M K (Unit {0})
  unfolding create_items
  create_tapes_batch library shelf [] = lift (err (invalid_parameter empty_batch))
  create_tapes_batch library shelf (item ∷ items) = create_items library shelf (item ∷ items)
