-- ===== src/Examples/Storage.antt =====
-- Names, shelves and the import at concrete inputs.
use vtladm.Prelude.{Text, ◌≡◌, refl, true, false, [], ◌∷◌, codes, text_eq, All}
use vtladm.Errors.{Result, ok, err}
use vtladm.Catalog.{
  Catalog, resolve_library_id, resolve_shelf_id, find_library, find_shelf, tape_in_drive,
  default_unused_shelf_name,
}
use vtladm.Catalog.Bays.{any_holds}
use vtladm.Catalog.Tapes.{find_named}
use vtladm.Robot.Valid.{IsValid, places}
use vtladm.Shelves.{migrate_tapes_between_shelves, migrate_all, migrate_one, has_duplicate, is_in}
use vtladm.Shelves.Migrate.{Stands, migrate_moves}
use vtladm.Import.{import_rows}
use vtladm.Examples.{stocked, marstor}
use vtladm.Examples.Robot.{stocked-IsValid}

abbrev changed : Result Catalog → Catalog
changed (ok db) = db
changed (err e) = stocked

abbrev vault : Text
vault = codes "vault"

-- The stocked catalog with a second, empty shelf in the library 1.
abbrev shelved : Catalog
shelved = record stocked {
  shelves =
      record { id = 1; library_id = 1; name = default_unused_shelf_name; is_default_unused = true }
      ∷ record { id = 3; library_id = 1; name = vault; is_default_unused = false }
      ∷ [];
}

shelved-IsValid : IsValid shelved
shelved-IsValid = record {
  slot_keys = stocked-IsValid.slot_keys;
  drive_keys = stocked-IsValid.drive_keys;
  tape_ids = stocked-IsValid.tape_ids;
  single = stocked-IsValid.single;
  slots_agree = stocked-IsValid.slots_agree;
  drives_agree = stocked-IsValid.drives_agree;
}

abbrev migrated : Catalog
migrated = changed (
    migrate_tapes_between_shelves marstor default_unused_shelf_name vault (codes "t3" ∷ []) shelved)

migrate_moves_example :
    All (λ name. Stands 1 3 name migrated) (codes "t3" ∷ [])
    × IsValid migrated
    × (places 3 migrated ≡ places 3 shelved)
unfolding resolve_library_id find_library text_eq resolve_shelf_id find_shelf
    migrate_tapes_between_shelves migrate_all migrate_one has_duplicate is_in find_named
    tape_in_drive any_holds
migrate_moves_example =
    migrate_moves shelved marstor default_unused_shelf_name vault (codes "t3" ∷ []) 1 3 3 refl refl
      refl shelved-IsValid

-- The tape of slot 0 is imported again, to slot 2.
abbrev twice : Catalog
twice = changed (import_rows stocked 1 2 (codes "t1") (codes "NEW") 10 (codes "t1"))
