-- ===== src/Libraries/Whole.antt =====
-- The whole of `create_named_library` and `delete_named_library` of vtladm-rc/userspace/src/main.rs:
-- the catalog, the files, the current library and the kernel's geometry.
use vtladm.Prelude.{
  ℕ, Text, Bool, true, false, not, List, [], ◌∷◌, ◌++◌, Option, none, some, if◌then◌else◌, text_eq,
  ℤ, ◌==◌,
}
use vtladm.Errors.{
  Result, ok, err, ◌>>=◌, ◌>>◌, io_error, invalid_parameter, no_online_library, refuse,
  reserved_name,
}
use vtladm.Catalog.{
  Catalog, Library, resolve_library_id, is_kernel_exported_library_name, is_test_only_library_name,
}
use vtladm.Catalog.Tapes.{Tape}
use vtladm.Settings.{Settings, trim}
use vtladm.Names.{sanitize_lib_dir_component, is_empty}
use vtladm.Changer.{Device, IoResult, done, failed}
use vtladm.Reload.Parts.{Host, GeomConfig, Site, KernelGeomSync}
use vtladm.Reload.{maybe_reload_kernel_vtl_after_db_change}
use vtladm.Libraries.{
  Setting, TapeTag, Tables, check_new_library, create_rows, check_deletable, delete_rows,
}

-- The rows of the other tables, and the library that the program works on.
pub record Shop (K : Type 0) : Type 0 where
  pub site : Site K
  pub config : List Setting
  pub tape_tags : List TapeTag
  pub current_library : Text

-- The operations on files. A directory is named by its component below the tape directory.
pub record Dirs (K : Type 0) : Type 0 where
  pub create_dir_all : Text → K → IoResult (Unit {0}) × K
  pub dir_exists : Text → K → Bool
  pub remove_dir_all : Text → K → IoResult (Unit {0}) × K
  pub remove_file : Text → K → IoResult (Unit {0}) × K

abbrev pub first_online : List Library → Option Text
first_online [] = none
first_online (l ∷ ls) =
    let rest = first_online ls in
    if is_kernel_exported_library_name l.name then some l.name else rest

abbrev pub named_or : Option Text → Result Text
named_or none = err (invalid_parameter no_online_library)
named_or (some name) = ok name

unfoldable pub first_online_library_name : Catalog → Result Text
first_online_library_name db = named_or (first_online db.libraries)

abbrev pub is_found : Result ℕ → Bool
is_found (ok lib) = true
is_found (err e) = false

abbrev named : Catalog → Text → Result Text
named db name = do
  refuse (is_test_only_library_name name) (invalid_parameter reserved_name)
  lib ← resolve_library_id db name
  ok name

abbrev current_or_first : Catalog → Text → Result Text
current_or_first db current =
    if not (is_empty current)
    then (if is_found (resolve_library_id db current)
        then ok current
        else first_online_library_name db)
    else first_online_library_name db

-- The library of `-L`, else the current one, else the first online one.
unfoldable pub resolve_active_library_name : Option Text → Text → Catalog → Result Text
unfolding trim first_online_library_name
resolve_active_library_name none current db = current_or_first db current
resolve_active_library_name (some raw) current db =
    if not (is_empty (trim raw)) then named db (trim raw) else current_or_first db current

abbrev pub kernel_of : {K : Type 0} → Shop K → K
kernel_of shop = shop.site.world.kernel

abbrev pub at_kernel : {K : Type 0} → K → Shop K → Shop K
at_kernel k shop = record shop {
  site = record shop.site { world = record shop.site.world { kernel = k } };
}

abbrev pub tables_of : {K : Type 0} → Shop K → Tables
tables_of shop = record {
  db = shop.site.world.db;
  config = shop.config;
  tape_tags = shop.tape_tags;
}

abbrev pub with_tables : {K : Type 0} → Tables → Shop K → Shop K
with_tables t shop = record {
  site = record shop.site { world = record shop.site.world { db = t.db } };
  config = t.config;
  tape_tags = t.tape_tags;
  current_library = shop.current_library;
}

-- `SELECT image_path FROM tapes WHERE library_id = lib`.
abbrev pub image_paths : ℕ → List Tape → List Text
image_paths lib [] = []
image_paths lib (r ∷ rs) =
    let rest = image_paths lib rs in if r.library_id == lib then r.image_path ∷ rest else rest

abbrev pub next_name : Result Text → Text
next_name (ok name) = name
next_name (err e) = []

module _ {K : Type 0} (dirs : Dirs K) (host : Host K) (dev : Device K) (s : Settings)
    (cfg : GeomConfig) where
  abbrev pub reloaded : {A : Type 0} → A → Shop K → Result (A × KernelGeomSync) × Shop K
  reloaded a shop =
      let (sync, site) = maybe_reload_kernel_vtl_after_db_change host dev s cfg shop.site in
      (ok (a, sync), record shop { site = site })

  abbrev pub after_dir :
      IoResult (Unit {0}) × K → Shop K → Result (Unit {0} × KernelGeomSync) × Shop K
  after_dir (done u, k) shop = reloaded tt (at_kernel k shop)
  after_dir (failed e, k) shop = (err (io_error e), at_kernel k shop)

  abbrev pub after_rows :
      Text → Shop K → Result Tables → Result (Unit {0} × KernelGeomSync) × Shop K
  after_rows name shop (err e) = (err e, shop)
  after_rows name shop (ok t) =
      after_dir (dirs.create_dir_all (sanitize_lib_dir_component name) (kernel_of shop))
        (with_tables t shop)

  abbrev pub rows_of : Text → Shop K → ℕ × ℕ → Result Tables
  rows_of name shop (d, n) = create_rows name d n (tables_of shop)

  unfoldable pub create_named_library :
      Text → ℤ → ℤ → Shop K → Result (Unit {0} × KernelGeomSync) × Shop K
  unfolding check_new_library create_rows sanitize_lib_dir_component
      maybe_reload_kernel_vtl_after_db_change
  create_named_library name drives slots shop =
      after_rows name shop (check_new_library name drives slots >>= rows_of name shop)

  -- A file that cannot be removed is a warning, here its path.
  abbrev pub warn : Text → IoResult (Unit {0}) × K → List Text × K
  warn path (done u, k) = ([], k)
  warn path (failed e, k) = (path ∷ [], k)

  unfoldable pub remove_files : List Text → K → List Text × K
  remove_files [] k = ([], k)
  remove_files (p ∷ ps) k =
      let (w, k') = warn p (dirs.remove_file p k) in
      let (ws, k'') = remove_files ps k' in (w ++ ws, k'')

  abbrev pub remove_dir : Text → List Text × K → List Text × K
  remove_dir dir (ws, k) =
      if dirs.dir_exists dir k
      then (let (w, k') = warn dir (dirs.remove_dir_all dir k) in (ws ++ w, k'))
      else (ws, k)

  abbrev pub choose_current : Text → Shop K → Shop K
  choose_current name shop =
      if text_eq shop.current_library name
      then record shop {
        current_library = next_name (first_online_library_name shop.site.world.db);
      }
      else shop

  abbrev pub after_delete :
      Text → ℕ → Shop K → Result Tables → Result (List Text × KernelGeomSync) × Shop K
  after_delete name lib shop (err e) = (err e, shop)
  after_delete name lib shop (ok t) =
      let (warnings, k) =
        remove_dir (sanitize_lib_dir_component name)
          (remove_files (image_paths lib shop.site.world.db.tapes) (kernel_of shop)) in
      reloaded warnings (choose_current name (at_kernel k (with_tables t shop)))

  abbrev pub deleting : Text → Shop K → Result ℕ → Result (List Text × KernelGeomSync) × Shop K
  deleting name shop (err e) = (err e, shop)
  deleting name shop (ok lib) = after_delete name lib shop (delete_rows name (tables_of shop))

  unfoldable pub delete_named_library : Text → Shop K → Result (List Text × KernelGeomSync) × Shop K
  unfolding check_deletable delete_rows sanitize_lib_dir_component remove_files
      first_online_library_name maybe_reload_kernel_vtl_after_db_change
  delete_named_library name shop = deleting name shop (check_deletable name shop.site.world.db)
