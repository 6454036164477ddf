-- ===== src/Tapes/Create.antt =====
-- What one new tape does to the catalog: `create_tape` of vtladm-rc/userspace/src/main.rs.
use vtladm.Prelude.{
  ℕ, Text, ◌+◌, ◌≡◌, refl, arith, Bool, true, false, ◌||◌, List, [], ◌∷◌, ◌++◌, none, some, ◌==◌,
  ltb, text_eq, all, if◌then◌else◌, inl, inr, Option-cases, Bool-cases,
}
use vtladm.Catalog.{Library, has_id}
use vtladm.Catalog.Bays.{Bay, held, is_some}
use vtladm.Catalog.Tapes.{Tape, find_tape, find_named, UniqueIds}
use vtladm.Catalog.Agreement.{Place, agrees}

pub find_tape-append :
    (u : ℕ) (rs : List Tape) (new : Tape)
    → find_tape u (rs ++ new ∷ []) ≡ (
        if is_some (find_tape u rs) then find_tape u rs else if new.id == u then some new else none)
unfolding find_tape
find_tape-append u [] new = refl
find_tape-append u (r ∷ rs) new = ground (arith, find_tape-append u rs new)

pub find_named-append :
    (lib : ℕ) (name : Text) (rs : List Tape) (new : Tape)
    → find_named lib name rs ≡ none
    → new.library_id ≡ lib
    → text_eq new.name name ≡ true
    → find_named lib name (rs ++ new ∷ []) ≡ some new
unfolding find_named
find_named-append lib name [] new h home same = ground (arith, home, same)
find_named-append lib name (r ∷ rs) new h home same =
    ground (arith, h, find_named-append lib name rs new)

pub append-UniqueIds :
    (rs : List Tape) (new : Tape)
    → find_tape new.id rs ≡ none
    → UniqueIds rs
    → UniqueIds (rs ++ new ∷ [])
unfolding find_tape
append-UniqueIds [] new h u = (refl, tt)
append-UniqueIds (r ∷ rs) new h u =
    ground (arith, find_tape-append r.id rs new, append-UniqueIds rs new, h, u)

-- A bay that agrees with the rows agrees with them and one more.
pub all-agrees-append :
    {A : Type 0} (p : Place) (rs : List Tape) (new : Tape) (bs : List (Bay A))
    → all (agrees p rs) bs ≡ true
    → all (agrees p (rs ++ new ∷ [])) bs ≡ true
unfolding all
all-agrees-append p rs new [] h = refl
all-agrees-append p rs new (b ∷ bs) h = elim (Option-cases b.tape_id) [
  | inl empty ↦ ground (arith, empty, all-agrees-append p rs new bs)
  | inr (u, full) ↦ ground (arith, full, find_tape-append u rs new, all-agrees-append p rs new bs)
]

-- A tape without a row lies in no bay.
pub held_without_row :
    {A : Type 0} (p : Place) (t : ℕ) (rs : List Tape) (bs : List (Bay A))
    → find_tape t rs ≡ none
    → all (agrees p rs) bs ≡ true
    → held t bs ≡ 0
unfolding all held
held_without_row p t rs [] h a = refl
held_without_row p t rs (b ∷ bs) h a = elim (Option-cases b.tape_id) [
  | inl empty ↦ ground (arith, empty, held_without_row p t rs bs h)
  | inr (u, full) ↦ elim (Bool-cases (u == t)) [
    | inl same ↦ ground (arith, full, same, h, a)
    | inr other ↦ ground (arith, full, other, held_without_row p t rs bs h)
  ]
]

-- The counter of AUTOINCREMENT is above every id.
abbrev pub below : ℕ → Tape → Bool
below n r = ltb r.id n

pub below-find_tape : (n : ℕ) (rs : List Tape) → all (below n) rs ≡ true → find_tape n rs ≡ none
unfolding all find_tape
below-find_tape n [] h = refl
below-find_tape n (r ∷ rs) h = ground (arith, below-find_tape n rs)

pub below-append :
    (n : ℕ) (rs : List Tape) (new : Tape)
    → new.id ≡ n
    → all (below n) rs ≡ true
    → all (below (n + 1)) (rs ++ new ∷ []) ≡ true
unfolding all
below-append n [] new e h = ground (arith, e)
below-append n (r ∷ rs) new e h = ground (arith, below-append n rs new e)

-- Some row has the name.
unfoldable pub is_used : Text → List Tape → Bool
is_used name [] = false
is_used name (r ∷ rs) = text_eq r.name name || is_used name rs

-- No name stands in two rows: the kernel knows a tape by its name alone.
unfoldable pub UniqueNames : List Tape → Type 0
unfolding is_used
UniqueNames [] = Unit
UniqueNames (r ∷ rs) = (is_used r.name rs ≡ false) × UniqueNames rs

abbrev pub is_housed : List Library → Tape → Bool
is_housed libs r = has_id r.library_id libs
