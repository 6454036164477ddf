-- ===== src/Catalog/Tapes.antt =====
-- The table `tapes`.
use vtladm.Prelude.{
  ℕ, Text, ◌≡◌, true, ◌&&◌, List, [], ◌∷◌, Option, none, some, arith, ◌==◌, if◌then◌else◌, text_eq,
}

pub record Tape : Type 0 where
  pub id : ℕ
  pub library_id : ℕ
  pub shelf_id : Option ℕ
  pub barcode : Text
  pub name : Text
  pub slot : Option ℕ
  pub capacity_bytes : ℕ
  pub used_bytes : ℕ
  pub image_path : Text

-- `SELECT … FROM tapes WHERE id = t`.
unfoldable pub find_tape : ℕ → List Tape → Option Tape
find_tape t [] = none
find_tape t (r ∷ rs) = if r.id == t then some r else find_tape t rs

-- `SELECT … FROM tapes WHERE library_id = lib AND name = name`.
unfoldable pub find_named : ℕ → Text → List Tape → Option Tape
find_named lib name [] = none
find_named lib name (r ∷ rs) =
    if r.library_id == lib && text_eq r.name name then some r else find_named lib name rs

-- `UPDATE tapes SET … WHERE id = t`.
unfoldable pub update_tape : ℕ → (Tape → Tape) → List Tape → List Tape
update_tape t f [] = []
update_tape t f (r ∷ rs) = (if r.id == t then f r else r) ∷ update_tape t f rs

abbrev pub in_slot : ℕ → Tape → Tape
in_slot s r = record r { slot = some s; shelf_id = none }

abbrev pub in_drive : Tape → Tape
in_drive r = record r { slot = none; shelf_id = none }

abbrev pub on_shelf : ℕ → Tape → Tape
on_shelf s r = record r { slot = none; shelf_id = some s }

abbrev map_option : (Tape → Tape) → Option Tape → Option Tape
map_option f none = none
map_option f (some r) = some (f r)

-- An update that keeps the row's id is seen at its own id, and nowhere else.
pub find_tape-update_tape :
    (t : ℕ) (f : Tape → Tape) (u : ℕ) (rs : List Tape)
    → ((r : Tape) → (f r).id ≡ r.id)
    → find_tape u (update_tape t f rs)
      ≡ (if u == t then map_option f (find_tape u rs) else find_tape u rs)
unfolding find_tape update_tape
find_tape-update_tape t f u [] keeps = ground arith
find_tape-update_tape t f u (r ∷ rs) keeps =
    ground (arith, keeps r, find_tape-update_tape t f u rs keeps)

-- The primary key of `tapes`.
abbrev pub UniqueIds : List Tape → Type 0
UniqueIds [] = Unit {0}
UniqueIds (r ∷ rs) = (find_tape r.id rs ≡ none) × UniqueIds rs

pub update_tape-UniqueIds :
    (t : ℕ) (f : Tape → Tape) (rs : List Tape)
    → ((r : Tape) → (f r).id ≡ r.id)
    → UniqueIds rs
    → UniqueIds (update_tape t f rs)
unfolding update_tape
update_tape-UniqueIds t f [] keeps u = tt
update_tape-UniqueIds t f (r ∷ rs) keeps u = ground (
  arith,
  keeps r,
  find_tape-update_tape t f r.id rs keeps,
  update_tape-UniqueIds t f rs keeps u.1,
)

-- A row that was found by its library and name is the row of its id.
pub find_named_sound :
    (lib : ℕ) (name : Text) (rs : List Tape) (found : Tape)
    → UniqueIds rs
    → find_named lib name rs ≡ some found
    → (find_tape found.id rs ≡ some found)
      × (found.library_id ≡ lib)
      × (text_eq found.name name ≡ true)
unfolding find_named find_tape
find_named_sound lib name [] found u h = cc
find_named_sound lib name (r ∷ rs) found u h =
    ground (arith, find_named_sound lib name rs found u.1)
