-- ===== src/Libraries/Keeps.antt =====
-- The catalog under the whole of making and deleting a library, with the pulls from the kernel that
-- follow a change of its geometry.
use vtladm.Prelude.{ℕ, Text, ◌≡◌, refl, ℤ, if_either, text_eq}
use vtladm.Errors.{Result, ok, err, >>=-eq-ok}
use vtladm.Settings.{Settings}
use vtladm.Names.{sanitize_lib_dir_component}
use vtladm.Robot.Valid.{IsValid}
use vtladm.Changer.{Device, IoResult, done, failed}
use vtladm.Reload.Parts.{Host, GeomConfig}
use vtladm.Reload.Cache.{reload_any-KeepsValid}
use vtladm.Libraries.{Tables, check_new_library, delete_rows}
use vtladm.Libraries.Create.{create_rows-IsValid}
use vtladm.Libraries.Delete.{kept-IsValid}
use vtladm.Libraries.Whole.{
  kernel_of, image_paths, remove_dir, remove_files, Shop, Dirs, create_named_library,
  delete_named_library, after_rows, after_dir, rows_of, tables_of, with_tables, reloaded,
  after_delete, deleting, at_kernel, choose_current,
}

module _ {K : Type 0} (dirs : Dirs K) (host : Host K) (dev : Device K) (s : Settings)
    (cfg : GeomConfig) where
  abbrev Valid : Shop K → Type 0
  Valid shop = IsValid shop.site.world.db

  reloaded-Valid :
      {A : Type 0} (a : A) (shop : Shop K)
      → Valid shop
      → Valid (reloaded dirs host dev s cfg a shop).1
  reloaded-Valid a shop v = reload_any-KeepsValid host dev s cfg shop.site v

  after_dir-Valid :
      (r : IoResult (Unit {0}) × K) (shop : Shop K)
      → Valid shop
      → Valid (after_dir dirs host dev s cfg r shop).1
  after_dir-Valid (done u, k) shop v = reloaded-Valid tt (at_kernel k shop) v
  after_dir-Valid (failed e, k) shop v = v

  after_rows-Valid :
      (name : Text) (shop : Shop K) (r : Result Tables)
      → ((t : Tables) → r ≡ ok t → IsValid t.db)
      → Valid shop
      → Valid (after_rows dirs host dev s cfg name shop r).1
  after_rows-Valid name shop (err e) new v = v
  after_rows-Valid name shop (ok t) new v = after_dir-Valid _ (with_tables t shop) (new t refl)

  -- Making a library keeps a valid catalog valid, whatever is refused or fails on the way, and
  -- whatever the kernel answers.
  pub create_library-KeepsValid :
      (name : Text) (drives slots : ℤ) (shop : Shop K)
      → IsValid shop.site.world.db
      → IsValid (create_named_library dirs host dev s cfg name drives slots shop).1.site.world.db
  unfolding create_named_library
  create_library-KeepsValid name drives slots shop v =
      after_rows-Valid name shop _
        (λ t made.
          let ((d, n), _, rows) =
            >>=-eq-ok (check_new_library name drives slots) (rows_of dirs host dev s cfg name shop)
              made in
          create_rows-IsValid name d n (tables_of shop) rows v)
        v

  chosen-Valid :
      (name : Text) (shop : Shop K)
      → Valid shop
      → Valid (choose_current dirs host dev s cfg name shop)
  chosen-Valid name shop v = if_either Valid (text_eq shop.current_library name) v v

  after_delete-Valid :
      (name : Text) (lib : ℕ) (shop : Shop K) (r : Result Tables)
      → ((t : Tables) → r ≡ ok t → IsValid t.db)
      → Valid shop
      → Valid (after_delete dirs host dev s cfg name lib shop r).1
  after_delete-Valid name lib shop (err e) new v = v
  after_delete-Valid name lib shop (ok t) new v =
      let end = remove_dir dirs host dev s cfg (sanitize_lib_dir_component name) (
        remove_files dirs host dev s cfg (image_paths lib shop.site.world.db.tapes)
          (kernel_of shop)) in
      let left : Shop K = at_kernel end.1 (with_tables t shop) in
      reloaded-Valid end.0 (choose_current dirs host dev s cfg name left)
        (chosen-Valid name left (new t refl))

  deleting-Valid :
      (name : Text) (shop : Shop K) (r : Result _)
      → Valid shop
      → Valid (deleting dirs host dev s cfg name shop r).1
  deleting-Valid name shop (err e) v = v
  deleting-Valid name shop (ok lib) v =
      after_delete-Valid name lib shop (delete_rows name (tables_of shop))
        (λ t made. kept-IsValid name (tables_of shop) made v) v

  -- Deleting a library keeps a valid catalog valid, whatever is refused or fails on the way, and
  -- whatever the kernel answers.
  pub delete_library-KeepsValid :
      (name : Text) (shop : Shop K)
      → IsValid shop.site.world.db
      → IsValid (delete_named_library dirs host dev s cfg name shop).1.site.world.db
  unfolding delete_named_library
  delete_library-KeepsValid name shop v = deleting-Valid name shop _ v
