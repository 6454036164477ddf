-- ===== src/Robot/Empty.antt =====
-- The query for the first empty slot: `ORDER BY slot_id`, first row.
use vtladm.Prelude.{
  ℕ, ◌≤◌, ◌≡◌, Bool, true, false, ◌&&◌, not, leb, List, [], ◌∷◌, Option, none, some, arith,
}
use vtladm.Catalog.Bays.{Bay, is_some, bay_at, UniqueKeys, content}
use vtladm.Robot.{first_empty, same}

-- An empty slot of the kind asked for.
abbrev pub is_free : Bool → Option (Bay Bool) → Bool
is_free mail none = false
is_free mail (some b) = not (is_some b.tape_id) && same mail b.column

abbrev at_most : ℕ → Option ℕ → Bool
at_most m none = false
at_most m (some n) = leb n m

-- The slot that is chosen is a row of the library, empty, and of the kind asked for.
pub first_empty_sound :
    (mail : Bool) (lib n : ℕ) (bs : List (Bay Bool))
    → UniqueKeys bs
    → first_empty mail lib bs ≡ some n
    → is_free mail (bay_at lib n bs) ≡ true
unfolding first_empty bay_at
first_empty_sound mail lib n [] u h = cc
first_empty_sound mail lib n (b ∷ bs) u h = ground (arith, first_empty_sound mail lib n bs u.1, u.0)

first_empty-at_most :
    (mail : Bool) (lib m : ℕ) (bs : List (Bay Bool))
    → is_free mail (bay_at lib m bs) ≡ true
    → at_most m (first_empty mail lib bs) ≡ true
unfolding first_empty bay_at
first_empty-at_most mail lib m [] h = cc
first_empty-at_most mail lib m (x ∷ bs) h = ground (arith, first_empty-at_most mail lib m bs)

-- If a slot of that kind is free, one is found, and its number is not greater.
pub first_empty_least :
    (mail : Bool) (lib m : ℕ) (bs : List (Bay Bool))
    → is_free mail (bay_at lib m bs) ≡ true
    → (n : ℕ) × (first_empty mail lib bs ≡ some n) × (n ≤ m)
first_empty_least mail lib m bs h = ground (arith, first_empty-at_most mail lib m bs h)

-- What is free is there and holds no tape.
pub free_content :
    (mail : Bool) (o : Option (Bay Bool))
    → is_free mail o ≡ true
    → (content o ≡ none) × (is_some o ≡ true)
free_content mail o h = ground arith
