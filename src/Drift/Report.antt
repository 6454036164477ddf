-- ===== src/Drift/Report.antt =====
-- What the report of the drifts holds, and in which order.
use vtladm.Prelude.{
  Text, ◌≡◌, refl, Bool, true, false, ◌||◌, List, [], ◌∷◌, Option, none, some, text_eq,
  text_eq_sound, if◌then◌else◌, Dict, lookup, keys, ◌++◌, keep, not, contains_key, arith, inl, inr,
  Bool-cases, sym, subst, ◌∙◌,
}
use vtladm.Elements.{MediumLocation, option_location_eq}
use vtladm.Drift.{DriftItem, text_le, drifts_of, insert_item, sort_items, tape_names, find_drifts}

-- The first item for a tape.
unfoldable pub item_of : Text → List DriftItem → Option DriftItem
item_of t [] = none
item_of t (x ∷ xs) = if text_eq x.tape t then some x else item_of t xs

member : Text → List Text → Bool
member t [] = false
member t (x ∷ xs) = text_eq x t || member t xs

-- What the report must say of a tape.
abbrev pub drift_at : Text → Option MediumLocation → Option MediumLocation → Option DriftItem
drift_at t d k =
    if option_location_eq d k then none else some (record { tape = t; db = d; kernel = k })

text_le_refl : (s : Text) → text_le s s ≡ true
unfolding text_le
text_le_refl [] = refl
text_le_refl (c ∷ s) = ground (arith, text_le_refl s)

text_le_total : (s t : Text) → text_le s t ≡ false → text_le t s ≡ true
unfolding text_le
text_le_total [] t h = cc
text_le_total (c ∷ s) [] h = refl
text_le_total (c ∷ s) (d ∷ t) h = ground (arith, text_le_total s t)

-- Two texts in the wrong order are not both equal to a third.
later_differs : (s t u : Text) → text_le s t ≡ false → text_eq t u ≡ true → text_eq s u ≡ false
later_differs s t u after h = elim (Bool-cases (text_eq s u)) [
  | inl same ↦
      let e : s ≡ t = text_eq_sound s u same ∙ sym (text_eq_sound t u h) in
      ground (arith, text_le_refl t, subst (λ x. text_le x t ≡ false) e after)
  | inr other ↦ other
]

item_of-insert_item :
    (t : Text) (x : DriftItem) (xs : List DriftItem)
    → item_of t (insert_item x xs) ≡ item_of t (x ∷ xs)
unfolding item_of insert_item
item_of-insert_item t x [] = refl
item_of-insert_item t x (y ∷ ys) = elim (Bool-cases (text_le x.tape y.tape)) [
  | inl before ↦ rw before refl
  | inr after ↦
      rw after (ground (arith, item_of-insert_item t x ys, later_differs x.tape y.tape t after))
]

item_of-sort_items : (t : Text) (xs : List DriftItem) → item_of t (sort_items xs) ≡ item_of t xs
unfolding sort_items item_of
item_of-sort_items t [] = refl
item_of-sort_items t (x ∷ xs) =
    rw (item_of-insert_item t x (sort_items xs)) (rw (item_of-sort_items t xs) refl)

item_of-drifts_of :
    (t : Text) (db kernel : Dict MediumLocation) (tapes : List Text)
    → item_of t (drifts_of db kernel tapes)
      ≡ (if member t tapes then drift_at t (lookup t db) (lookup t kernel) else none)
unfolding item_of drifts_of member
item_of-drifts_of t db kernel [] = refl
item_of-drifts_of t db kernel (x ∷ xs) =
    ground (arith, text_eq_sound x t, item_of-drifts_of t db kernel xs)

member-append : (t : Text) (xs ys : List Text) → member t (xs ++ ys) ≡ (member t xs || member t ys)
unfolding member
member-append t [] ys = refl
member-append t (x ∷ xs) ys = ground (arith, member-append t xs ys)

-- A name that neither map has is in the same place, nowhere, in both.
lookup_not_key :
    (t : Text) (m : Dict MediumLocation) → member t (keys m) ≡ false → lookup t m ≡ none
unfolding member keys lookup
lookup_not_key t [] h = refl
lookup_not_key t ((j, v) ∷ m) h = ground (arith, lookup_not_key t m)

member-keep :
    (t : Text) (p : Text → Bool) (xs : List Text) → p t ≡ true → member t (keep p xs) ≡ member t xs
unfolding member keep
member-keep t p [] h = refl
member-keep t p (x ∷ xs) h = ground (arith, text_eq_sound x t, member-keep t p xs h)

member-keys : (t : Text) (m : Dict MediumLocation) → contains_key t m ≡ member t (keys m)
unfolding member keys contains_key
member-keys t [] = refl
member-keys t ((j, v) ∷ m) = ground (arith, member-keys t m)

lookup_not_name :
    (t : Text) (db kernel : Dict MediumLocation)
    → member t (tape_names db kernel) ≡ false
    → (lookup t db ≡ none) × (lookup t kernel ≡ none)
unfolding tape_names
lookup_not_name t db kernel h = ground (
  arith,
  member-append t (keys db) (keep (λ k. not (contains_key k db)) (keys kernel)),
  member-keep t (λ k. not (contains_key k db)) (keys kernel),
  member-keys t db,
  lookup_not_key t db,
  lookup_not_key t kernel,
)

-- The report has an item for a tape exactly when the two maps do not put it in one place, and the
-- item says where each puts it.
pub item_of-find_drifts :
    (t : Text) (db kernel : Dict MediumLocation)
    → item_of t (find_drifts db kernel) ≡ drift_at t (lookup t db) (lookup t kernel)
unfolding find_drifts
item_of-find_drifts t db kernel =
    rw (item_of-sort_items t (drifts_of db kernel (tape_names db kernel))) (
      ground
        (arith, item_of-drifts_of t db kernel (tape_names db kernel), lookup_not_name t db kernel))

-- Each item comes before the next in the order of the names.
abbrev pub IsSorted : List DriftItem → Type 0
IsSorted [] = Unit {0}
IsSorted (x ∷ []) = Unit {0}
IsSorted (x ∷ y ∷ ys) = (text_le x.tape y.tape ≡ true) × IsSorted (y ∷ ys)

insert_item-IsSorted :
    (x : DriftItem) (xs : List DriftItem) → IsSorted xs → IsSorted (insert_item x xs)
unfolding insert_item
insert_item-IsSorted x [] h = tt
insert_item-IsSorted x (y ∷ []) h = ground (arith, text_le_total x.tape y.tape)
insert_item-IsSorted x (y ∷ z ∷ zs) h =
    ground (arith, text_le_total x.tape y.tape, insert_item-IsSorted x (z ∷ zs) h.1)

sort_items-IsSorted : (xs : List DriftItem) → IsSorted (sort_items xs)
unfolding sort_items
sort_items-IsSorted [] = tt
sort_items-IsSorted (x ∷ xs) = insert_item-IsSorted x (sort_items xs) (sort_items-IsSorted xs)

-- The report is sorted by the names of the tapes.
pub find_drifts-IsSorted : (db kernel : Dict MediumLocation) → IsSorted (find_drifts db kernel)
unfolding find_drifts
find_drifts-IsSorted db kernel = sort_items-IsSorted (drifts_of db kernel (tape_names db kernel))
