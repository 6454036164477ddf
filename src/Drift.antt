-- ===== src/Drift.antt =====
-- `find_drifts` of vtladm-rc/userspace/src/reconcile.rs: the tapes that the catalog and the kernel
-- do not put in the same place.
pub mod Report
use vtladm.Prelude.{
  ℕ, Text, Bool, true, false, ◌||◌, ◌&&◌, List, [], ◌∷◌, Option, none, some, ◌==◌, ltb, text_eq,
  if◌then◌else◌, Dict, lookup, keys, ◌++◌, keep, not, contains_key,
}
use vtladm.Elements.{MediumLocation, option_location_eq}

pub record DriftItem : Type 0 where
  pub tape : Text
  pub db : Option MediumLocation
  pub kernel : Option MediumLocation

-- `String::cmp`, which compares the bytes from the left.
unfoldable pub text_le : Text → Text → Bool
text_le [] t = true
text_le (c ∷ s) [] = false
text_le (c ∷ s) (d ∷ t) = ltb c d || c == d && text_le s t

-- The loop over the set of names.
unfoldable pub drifts_of : Dict MediumLocation → Dict MediumLocation → List Text → List DriftItem
drifts_of db kernel [] = []
drifts_of db kernel (tape ∷ tapes) =
    let d = lookup tape db in
    let k = lookup tape kernel in
    let rest = drifts_of db kernel tapes in
    if option_location_eq d k then rest else record { tape = tape; db = d; kernel = k } ∷ rest

-- `sort_by`, a stable sort.
unfoldable pub insert_item : DriftItem → List DriftItem → List DriftItem
insert_item x [] = x ∷ []
insert_item x (y ∷ ys) = if text_le x.tape y.tape then x ∷ y ∷ ys else y ∷ insert_item x ys

unfoldable pub sort_items : List DriftItem → List DriftItem
unfolding insert_item
sort_items [] = []
sort_items (x ∷ xs) = insert_item x (sort_items xs)

-- The set of the names of both maps: each name once.
unfoldable pub tape_names : Dict MediumLocation → Dict MediumLocation → List Text
tape_names db kernel = keys db ++ keep (λ k. not (contains_key k db)) (keys kernel)

unfoldable pub find_drifts : Dict MediumLocation → Dict MediumLocation → List DriftItem
unfolding drifts_of sort_items tape_names
find_drifts db kernel = sort_items (drifts_of db kernel (tape_names db kernel))
