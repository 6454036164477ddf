-- ===== src/Display/Shown.antt =====
-- What `changer_inventory_display` of vtladm-rc/userspace/src/robot_sync.rs shows from the catalog.
use vtladm.Prelude.{
  ℕ, ◌≡◌, refl, ◌∙◌, arith, Bool, true, false, ◌&&◌, not, List, Option, none, some, ◌==◌, keep, map,
  ◌⊎◌, inl, inr, Bool-cases,
}
use vtladm.Errors.{VtlError, ok, err}
use vtladm.Catalog.{Catalog}
use vtladm.Catalog.Bays.{Bay, bay_at, UniqueKeys}
use vtladm.Settings.{Settings, robot_sync}
use vtladm.Changer.{Device}
use vtladm.Changer.World.{World}
use vtladm.Changer.Calls.{kernel_inventory_snapshot}
use vtladm.Align.Keeps.{keeps-kernel_inventory_snapshot}
use vtladm.Display.{
  Label, ChangerRow, ChangerInventoryDisplay, from_db, sort_bays, is_data, is_mail, is_drive,
  slot_row, mail_row, drive_row, changer_inventory_from_db, changer_inventory_from_kernel,
  changer_inventory_display,
}
use vtladm.Display.Order.{bay_numbered-selected, rising-sort_bays, restricted}
use vtladm.Display.Rows.{
  slot_key, drive_key, mail_key, mail_key-mail_row, row_at, ascending, ordered, data_bay, mail_bay,
  shown, catalog_row, row_at-map, ascending-map, db_rows-map,
}

-- The rows that a selection and its order yield.
module _ {A : Type 0} (lib : ℕ) (selects test : Bay A → Bool)
    (by_library : (b : Bay A) → selects b ≡ (b.library_id == lib && test b))
    (key : Label → Option ℕ) (f : Bay A → ChangerRow)
    (keyed : (b : Bay A) → key (f b).label ≡ some b.number) (bs : List (Bay A))
    (u : UniqueKeys bs) where
  pub row_at-selected :
      (n : ℕ)
      → row_at key n (map f (sort_bays (keep selects bs)))
        ≡ shown f (restricted test (bay_at lib n bs))
  row_at-selected n =
      rw
        (
          row_at-map key f keyed n (sort_bays (keep selects bs)),
          bay_numbered-selected lib selects test by_library n bs u,
        )
        refl

  pub ascending-selected : ascending key 0 (map f (sort_bays (keep selects bs))) ≡ true
  ascending-selected =
      ascending-map key f keyed 0 (sort_bays (keep selects bs))
      ∙ rising-sort_bays lib selects test by_library bs u

-- All drives of a library are selected.
pub every : (lib : ℕ) (b : Bay (Unit {0})) → is_drive lib b ≡ (b.library_id == lib && true)
every lib b = ground arith

pub restricted-every : {A : Type 0} (o : Option (Bay A)) → restricted (λ (b : Bay A). true) o ≡ o
restricted-every none = refl
restricted-every (some b) = refl

-- A display whose rows come from the bays by `f_slot`, `f_drive` and `f_mail`.
module _ (lib : ℕ) (db : Catalog) (slot_keys : UniqueKeys db.slots)
    (drive_keys : UniqueKeys db.drives) (f_slot f_mail : Bay Bool → ChangerRow)
    (f_drive : Bay (Unit {0}) → ChangerRow)
    (slot_keyed : (b : Bay Bool) → slot_key (f_slot b).label ≡ some b.number)
    (drive_keyed : (b : Bay (Unit {0})) → drive_key (f_drive b).label ≡ some b.number)
    (mail_keyed : (b : Bay Bool) → mail_key (f_mail b).label ≡ some b.number)
    (d : ChangerInventoryDisplay)
    (slots : d.data_slots ≡ map f_slot (sort_bays (keep (is_data lib) db.slots)))
    (drives : d.drives ≡ map f_drive (sort_bays (keep (is_drive lib) db.drives)))
    (mails : d.mailslots ≡ map f_mail (sort_bays (keep (is_mail lib) db.slots))) where
  pub display-ordered : ordered d ≡ true
  display-ordered =
      rw
        (
          slots,
          drives,
          mails,
          ascending-selected lib (is_data lib) (λ b. not b.column) (λ b. refl) slot_key f_slot
              slot_keyed db.slots slot_keys,
          ascending-selected lib (is_drive lib) (λ b. true) (every lib) drive_key f_drive
              drive_keyed db.drives drive_keys,
          ascending-selected lib (is_mail lib) (λ b. b.column) (λ b. refl) mail_key f_mail
              mail_keyed db.slots slot_keys,
        )
        refl

  pub row_at-data : (n : ℕ) → row_at slot_key n d.data_slots ≡ shown f_slot (data_bay lib n db)
  row_at-data n = rw slots (
      row_at-selected lib (is_data lib) (λ b. not b.column) (λ b. refl) slot_key f_slot slot_keyed
        db.slots slot_keys n)

  pub row_at-drive : (n : ℕ) → row_at drive_key n d.drives ≡ shown f_drive (bay_at lib n db.drives)
  row_at-drive n = rw drives (
      row_at-selected lib (is_drive lib) (λ b. true) (every lib) drive_key f_drive drive_keyed
        db.drives drive_keys n
      ∙ rw (restricted-every (bay_at lib n db.drives)) refl)

  pub row_at-mail : (n : ℕ) → row_at mail_key n d.mailslots ≡ shown f_mail (mail_bay lib n db)
  row_at-mail n = rw mails (
      row_at-selected lib (is_mail lib) (λ b. b.column) (λ b. refl) mail_key f_mail mail_keyed
        db.slots slot_keys n)

module _ {K : Type 0} (dev : Device K) (s : Settings) where
  -- Without the kernel, or where it does not answer, the catalog is shown.
  catalog_shown :
      (lib : ℕ) (w : World K)
      → (robot_sync s ≡ false)
        ⊎ ((e : VtlError) × ((kernel_inventory_snapshot dev lib w).0 ≡ err e))
      → (changer_inventory_display dev s lib w).0 ≡ ok (changer_inventory_from_db w.db lib)
  unfolding changer_inventory_display changer_inventory_from_kernel
  catalog_shown lib w (inl off) = rw off refl
  catalog_shown lib w (inr (e, fails)) = elim (Bool-cases (robot_sync s)) [
    | inl on ↦ rw (on, fails, keeps-kernel_inventory_snapshot dev s lib w) refl
    | inr off ↦ rw off refl
  ]

  -- Where the kernel is not asked, or does not answer, a changer is shown from the catalog, without
  -- failing. The rows of the data slots, the drives and the mail slots are each in the order of
  -- their numbers, none twice. At a number stands a row exactly where the catalog has a bay of the
  -- library and the kind, and it shows the name and the barcode of the tape that the catalog has
  -- there, if there is one. No key stands in two rows of slots or of drives.
  pub display_from_catalog :
      (lib n : ℕ) (w : World K)
      → UniqueKeys w.db.slots
      → UniqueKeys w.db.drives
      → (robot_sync s ≡ false)
        ⊎ ((e : VtlError) × ((kernel_inventory_snapshot dev lib w).0 ≡ err e))
      → (d : ChangerInventoryDisplay) × ((changer_inventory_display dev s lib w).0 ≡ ok d)
        × (d.source ≡ from_db)
        × (ordered d ≡ true)
        × (row_at slot_key n d.data_slots
            ≡ shown (catalog_row slot_row w.db.tapes) (data_bay lib n w.db))
        × (row_at drive_key n d.drives
            ≡ shown (catalog_row drive_row w.db.tapes) (bay_at lib n w.db.drives))
        × (row_at mail_key n d.mailslots
            ≡ shown (catalog_row mail_row w.db.tapes) (mail_bay lib n w.db))
  unfolding changer_inventory_from_db
  display_from_catalog lib n w slots drives offline =
      let d = changer_inventory_from_db w.db lib in
      let tapes = w.db.tapes in
      let at_slot : Bay Bool → ChangerRow = catalog_row slot_row tapes in
      let at_mail : Bay Bool → ChangerRow = catalog_row mail_row tapes in
      let at_drive : Bay (Unit {0}) → ChangerRow = catalog_row drive_row tapes in
      let mail_keyed = λ (b : Bay Bool). mail_key-mail_row b.number in
      let e_slot = db_rows-map slot_row tapes (sort_bays (keep (is_data lib) w.db.slots)) in
      let e_drive = db_rows-map drive_row tapes (sort_bays (keep (is_drive lib) w.db.drives)) in
      let e_mail = db_rows-map mail_row tapes (sort_bays (keep (is_mail lib) w.db.slots)) in
      (
        d,
        catalog_shown lib w offline,
        refl,
        display-ordered lib w.db slots drives at_slot at_mail at_drive (λ b. refl) (λ b. refl)
            mail_keyed d e_slot e_drive e_mail,
        row_at-data lib w.db slots drives at_slot at_mail at_drive (λ b. refl) (λ b. refl)
            mail_keyed d e_slot e_drive e_mail n,
        row_at-drive lib w.db slots drives at_slot at_mail at_drive (λ b. refl) (λ b. refl)
            mail_keyed d e_slot e_drive e_mail n,
        row_at-mail lib w.db slots drives at_slot at_mail at_drive (λ b. refl) (λ b. refl)
            mail_keyed d e_slot e_drive e_mail n,
      )
