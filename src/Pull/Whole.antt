-- ===== src/Pull/Whole.antt =====
-- The whole pull of a library, from the kernel's reply to the catalog, and the pass over all
-- libraries.
use vtladm.Prelude.{
  ℕ, Text, ◌≡◌, refl, sym, subst, arith, false, List, [], ◌∷◌, ◌||◌, Option, none, some, text_eq,
  text_eq_sym, text_eq_sound, Dict, insert, contains_key, inl, inr, Bool-cases, take, ◌∙◌,
}
use Prim.Native.Nat.{min}
use vtladm.Errors.{Result, ok, err, >>=-eq-ok, ok-inj}
use vtladm.Inventory.{
  VtlInvItem, VtlInventoryIoctl, KernelInventory, cstr_to_string, add_item, add_items,
  snapshot_of_reply, ensure_inventory_complete, clamp, inv_max_items,
}
use vtladm.Elements.{MediumLocation, from_element}
use vtladm.Geometry.{online_library_ids_for_kernel_sync}
use vtladm.Robot.Valid.{IsValid}
use vtladm.Settings.{Settings, robot_sync}
use vtladm.Changer.{Device}
use vtladm.Changer.World.{World, ◌>>=◌, lift, continue}
use vtladm.Changer.Calls.{parsed, mapped, ask, library_instance_i32, kernel_inventory_snapshot}
use vtladm.Pull.Valid.{UniqueNames}
use vtladm.Pull.Loop.{apply_kernel_to_db-IsValid}
use vtladm.Align.{pull_library_inventory_from_kernel, pull_into}
use vtladm.Align.Keeps.{keeps-kernel_inventory_snapshot}
use vtladm.Offline.Keeps.{KeepsValid, continue-KeepsValid}
use vtladm.Sync.{pull_each, pull_all_online_libraries_from_kernel}

contains_key-insert :
    (k j : Text) (loc : MediumLocation) (m : Dict MediumLocation)
    → contains_key j (insert k loc m) ≡ (text_eq k j || contains_key j m)
unfolding contains_key insert
contains_key-insert k j loc [] = refl
contains_key-insert k j loc ((i, w) ∷ m) = elim (Bool-cases (text_eq i k)) [
  | inl same ↦ let e : i ≡ k = text_eq_sound i k same in rw (same, e) (ground arith)
  | inr other ↦ rw (other, contains_key-insert k j loc m) (ground arith)
]

insert-UniqueNames :
    (k : Text) (loc : MediumLocation) (m : Dict MediumLocation)
    → contains_key k m ≡ false
    → UniqueNames m
    → UniqueNames (insert k loc m)
unfolding contains_key insert
insert-UniqueNames k loc [] fresh u = (refl, tt)
insert-UniqueNames k loc ((i, w) ∷ m) fresh u =
    let other : text_eq i k ≡ false = ground (arith, fresh) in
    rw other (
      contains_key-insert k i loc m ∙ ground (arith, text_eq_sym i k, other, u),
      insert-UniqueNames k loc m (ground (arith, fresh)) u.1,
    )

-- An inventory that names a tape twice is refused.
add_item-UniqueNames :
    (name : Text) (o : Option MediumLocation) (m : Dict MediumLocation)
    {after : Dict MediumLocation}
    → UniqueNames m
    → add_item name o m ≡ ok after
    → UniqueNames after
unfolding add_item
add_item-UniqueNames [] o m u h = subst UniqueNames (ok-inj h) u
add_item-UniqueNames (c ∷ s) none m u h = subst UniqueNames (ok-inj h) u
add_item-UniqueNames (c ∷ s) (some loc) m {after} u h = elim (Bool-cases (contains_key (c ∷ s) m)) [
  | inl twice ↦ ground (arith, twice, h)
  | inr fresh ↦
      let e : insert (c ∷ s) loc m ≡ after = ground (arith, fresh, h) in
      subst UniqueNames e (insert-UniqueNames (c ∷ s) loc m fresh u)
]

add_items-UniqueNames :
    (items : List VtlInvItem) (m : Dict MediumLocation) {after : Dict MediumLocation}
    → UniqueNames m
    → add_items items m ≡ ok after
    → UniqueNames after
unfolding add_items
add_items-UniqueNames [] m u h = subst UniqueNames (ok-inj h) u
add_items-UniqueNames (item ∷ items) m u h =
    let name = cstr_to_string item.tape_name in
    let (mid, first, rest) =
      >>=-eq-ok (add_item name (from_element item.element) m) (add_items items) h in
    add_items-UniqueNames items mid
      (add_item-UniqueNames name (from_element item.element) m u first) rest

snapshot-UniqueNames :
    (reply : VtlInventoryIoctl) {snap : KernelInventory}
    → snapshot_of_reply reply ≡ ok snap
    → UniqueNames snap.locations
unfolding snapshot_of_reply
snapshot-UniqueNames reply {snap} h =
    let items = take (min (clamp reply.count) inv_max_items) reply.items in
    let (m, first, rest) = >>=-eq-ok (add_items items []) _ h in
    subst (λ (k : KernelInventory). UniqueNames k.locations) (ok-inj rest)
      (add_items-UniqueNames items [] tt first)

module _ {K : Type 0} (dev : Device K) (s : Settings) where
  parsed_unique :
      (r : Result VtlInventoryIoctl) (snap : KernelInventory)
      → parsed dev r ≡ ok snap
      → UniqueNames snap.locations
  parsed_unique (ok reply) snap h = snapshot-UniqueNames reply h
  parsed_unique (err e) snap h = cc h

  -- A snapshot that is answered names no tape twice.
  pub snapshot_unique :
      (lib : ℕ) (w : World K) (snap : KernelInventory)
      → (kernel_inventory_snapshot dev lib w).0 ≡ ok snap
      → UniqueNames snap.locations
  unfolding kernel_inventory_snapshot
  snapshot_unique lib w snap h =
      parsed_unique (mapped (ask dev (library_instance_i32 w.db lib) w.kernel).0) snap h

  pull_into-KeepsValid :
      (lib : ℕ) (m : Dict MediumLocation) → UniqueNames m → KeepsValid (pull_into dev s lib m)
  pull_into-KeepsValid lib m u w v = apply_kernel_to_db-IsValid w.db lib m u v

  after_snapshot-KeepsValid :
      (lib : ℕ) (r : Result KernelInventory) (w : World K)
      → ((snap : KernelInventory) → r ≡ ok snap → UniqueNames snap.locations)
      → IsValid w.db
      → IsValid
          (continue
            (λ snap.
              lift (ensure_inventory_complete snap) >>= λ _. pull_into dev s lib snap.locations)
            r
            w).1.db
  after_snapshot-KeepsValid lib (err e) w unique v = v
  after_snapshot-KeepsValid lib (ok snap) w unique v =
      continue-KeepsValid (λ _. pull_into dev s lib snap.locations)
        (λ _. pull_into-KeepsValid lib snap.locations (unique snap refl))
        (ensure_inventory_complete snap) w v

  -- Whatever inventory the kernel answers, and if it answers none, a pull keeps the catalog valid.
  pub pull_library-KeepsValid :
      (lib : ℕ) → KeepsValid (pull_library_inventory_from_kernel dev s lib)
  unfolding pull_library_inventory_from_kernel
  pull_library-KeepsValid lib w v = elim (Bool-cases (robot_sync s)) [
    | inr off ↦ rw off v
    | inl on ↦ rw on (
        after_snapshot-KeepsValid lib (kernel_inventory_snapshot dev lib w).0
          (kernel_inventory_snapshot dev lib w).1 (snapshot_unique lib w)
          (subst IsValid (sym (keeps-kernel_inventory_snapshot dev s lib w)) v))
  ]

  pull_each-KeepsValid : (libs : List ℕ) → KeepsValid (pull_each dev s libs)
  unfolding pull_each
  pull_each-KeepsValid [] w v = v
  pull_each-KeepsValid (lib ∷ libs) w v =
      pull_each-KeepsValid libs _ (pull_library-KeepsValid lib w v)

  pub pull_all-KeepsValid : KeepsValid (pull_all_online_libraries_from_kernel dev s)
  unfolding pull_all_online_libraries_from_kernel
  pull_all-KeepsValid w v = elim (Bool-cases (robot_sync s)) [
    | inr off ↦ rw off v
    | inl on ↦ rw on (pull_each-KeepsValid (online_library_ids_for_kernel_sync w.db) w v)
  ]
