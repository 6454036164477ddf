-- ===== src/Errors.antt =====
-- The error type of vtladm-rc/userspace/src/main.rs. A message that only formats its arguments is a
-- reason.
use vtladm.Prelude.{not, Text, ◌≡◌, refl, Bool, true, false, Option, none, some, ◌⊎◌, inl, inr}

-- What the text of an `InvalidParameter` says.
pub data Reason : Type 0 where
  empty_name name_too_long bad_name_characters name_not_canonical : Reason
  reserved_name drives_out_of_range slots_out_of_range too_many_libraries : Reason
  already_in_slot slot_not_empty slot_inconsistent : Reason
  empty_batch batch_too_large duplicate_slot duplicate_tape offline_library : Reason
  not_on_source_shelf same_shelf shelf_exists last_online_library default_shelf shelf_in_use :
      Reason
  name_used_elsewhere name_used_here target_path_exists count_out_of_range : Reason
  inventory_truncated duplicate_in_inventory multiple_locations : Reason
  push_disabled both_directions robot_sync_disabled ioctl_unavailable no_online_library : Reason
  no_geometry : Reason

pub data Quota : Type 0 where
  total_size tape_count : Quota

-- The errno values that the program tells apart.
pub data IoError : Type 0 where
  enotty enodev einval ebusy eacces not_found unsupported invalid_input other : IoError

pub data VtlError : Type 0 where
  database_error : VtlError
  io_error : IoError → VtlError
  invalid_size : VtlError
  tape_not_found : Text → VtlError
  slot_empty drive_empty drive_busy : VtlError
  invalid_parameter : Reason → VtlError
  permission_denied no_available_slots : VtlError
  invalid_tape_name : Reason → VtlError
  quota_exceeded : Quota → VtlError
  library_not_found shelf_not_found library_exists : Text → VtlError
  tag_not_found : Text → VtlError
  tape_in_drive tape_not_on_shelf : VtlError

pub data Result {ℓ} (A : Type ℓ) : Type ℓ where
  err : VtlError → Result A
  ok : A → Result A

-- The operator `?`: an error is passed on.
infixl 5 ◌>>=◌ ◌>>◌
abbrev pub ◌>>=◌ {κ ℓ} : {X : Type κ} {Y : Type ℓ} → Result X → (X → Result Y) → Result Y
err why >>= next = err why
ok x >>= next = next x

abbrev pub ◌>>◌ {ℓ} : {Y : Type ℓ} → Result (Unit {0}) → Result Y → Result Y
first >> second = first >>= λ _. second

-- `if c { return Err(why) }`.
abbrev pub refuse : Bool → VtlError → Result (Unit {0})
refuse false why = ok tt
refuse true why = err why

-- `if !c { return Err(why) }`.
abbrev pub ensure : Bool → VtlError → Result (Unit {0})
ensure c why = refuse (not c) why

-- `o.ok_or(e)?`.
abbrev pub ok_or {ℓ} : {A : Type ℓ} → Option A → VtlError → Result A
ok_or none e = err e
ok_or (some a) e = ok a

-- A chain that succeeds did so step by step.
pub >>=-eq-ok {κ ℓ} :
    {X : Type κ} {Y : Type ℓ} (first : Result X) (next : X → Result Y) {y : Y}
    → (first >>= next) ≡ ok y
    → (x : X) × (first ≡ ok x) × (next x ≡ ok y)
>>=-eq-ok (err why) next done = cc done
>>=-eq-ok (ok x) next done = (x, refl, done)

pub ok-inj {ℓ} : {A : Type ℓ} {a b : A} → ok a ≡ ok b → a ≡ b
ok-inj h = cc h

pub Result-cases {ℓ} :
    {A : Type ℓ} (r : Result A) → ((a : A) × (r ≡ ok a)) ⊎ ((e : VtlError) × (r ≡ err e))
Result-cases (ok a) = inl (a, refl)
Result-cases (err e) = inr (e, refl)
