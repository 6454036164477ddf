-- ===== src/Catalog/Agreement.antt =====
-- What the rows of `slots` and `drives` and the columns of `tapes` must say of one another.
use vtladm.Prelude.{
  ℕ, ◌≡◌, refl, Bool, true, false, ◌&&◌, not, List, [], ◌∷◌, Option, none, some, arith, Bool-cases,
  inl, inr, ◌==◌, all,
}
use vtladm.Catalog.Bays.{
  Bay, is_some, is_held, at_key, bay_at, set_bay, clear_tape, clear_library, any_holds, held, holds,
  content,
}
use vtladm.Catalog.Tapes.{Tape, find_tape, update_tape, find_tape-update_tape}

-- The row of a tape that lies in the slot `n` of a library, or in one of its drives.
abbrev pub slot_place : ℕ → ℕ → Tape → Bool
slot_place lib n r = r.library_id == lib && is_held n r.slot && not (is_some r.shelf_id)

abbrev pub drive_place : ℕ → ℕ → Tape → Bool
drive_place lib n r = r.library_id == lib && not (is_some r.slot) && not (is_some r.shelf_id)

abbrev pub Place : Type 0
Place = ℕ → ℕ → Tape → Bool

abbrev pub tape_agrees : (Tape → Bool) → Option Tape → Bool
tape_agrees p none = false
tape_agrees p (some r) = p r

abbrev pub id_agrees : (Tape → Bool) → List Tape → Option ℕ → Bool
id_agrees p tapes none = true
id_agrees p tapes (some t) = tape_agrees p (find_tape t tapes)

-- A bay is empty, or holds a tape whose row says that it lies there.
abbrev pub agrees : {A : Type 0} → Place → List Tape → Bay A → Bool
agrees p tapes b = id_agrees (p b.library_id b.number) tapes b.tape_id

-- A change to the row of a tape is not seen where another tape lies.
id_agrees-update_tape :
    (q : Tape → Bool) (t : ℕ) (f : Tape → Tape) (tapes : List Tape) (o : Option ℕ)
    → ((r : Tape) → (f r).id ≡ r.id)
    → holds t o ≡ 0
    → id_agrees q (update_tape t f tapes) o ≡ id_agrees q tapes o
id_agrees-update_tape q t f tapes none keeps h = refl
id_agrees-update_tape q t f tapes (some x) keeps h =
    ground (arith, find_tape-update_tape t f x tapes keeps)

tape_of_id :
    (q : Tape → Bool) (tapes : List Tape) (t : ℕ)
    → id_agrees q tapes (some t) ≡ true
    → (r : Tape) × (find_tape t tapes ≡ some r) × (q r ≡ true)
tape_of_id q tapes t h = ground arith

module _ {A : Type 0} where
  -- A change to the row of a tape that lies in no bay of the table.
  pub all-agrees-update_tape :
      (p : Place) (t : ℕ) (f : Tape → Tape) (tapes : List Tape) (bs : List (Bay A))
      → ((r : Tape) → (f r).id ≡ r.id)
      → held t bs ≡ 0
      → all (agrees p tapes) bs ≡ true
      → all (agrees p (update_tape t f tapes)) bs ≡ true
  unfolding all held
  all-agrees-update_tape p t f tapes [] keeps h ok = refl
  all-agrees-update_tape p t f tapes (b ∷ bs) keeps h ok = ground (
    arith,
    id_agrees-update_tape (p b.library_id b.number) t f tapes b.tape_id keeps,
    all-agrees-update_tape p t f tapes bs keeps,
  )

  -- A write to one bay.
  pub all-set_bay :
      (q : Bay A → Bool) (lib n : ℕ) (v : Option ℕ) (bs : List (Bay A))
      → ((b : Bay A) → at_key lib n b ≡ true → q (record b { tape_id = v }) ≡ true)
      → all q bs ≡ true
      → all q (set_bay lib n v bs) ≡ true
  unfolding all set_bay
  all-set_bay q lib n v [] new h = refl
  all-set_bay q lib n v (b ∷ bs) new h = ground (arith, new b, all-set_bay q lib n v bs new)

  pub all-bay_at :
      (q : Bay A → Bool) (lib n : ℕ) (bs : List (Bay A)) (b : Bay A)
      → bay_at lib n bs ≡ some b
      → all q bs ≡ true
      → (at_key lib n b ≡ true) × (q b ≡ true)
  unfolding all bay_at
  all-bay_at q lib n [] b e h = cc
  all-bay_at q lib n (x ∷ bs) b e h = ground (arith, all-bay_at q lib n bs b)

  -- A tape that agrees with a place is at home in the row that was read.
  pub all-put :
      (p : Place) (lib n t : ℕ) (tapes : List Tape) (r : Tape) (bs : List (Bay A))
      → find_tape t tapes ≡ some r
      → p lib n r ≡ true
      → all (agrees p tapes) bs ≡ true
      → all (agrees p tapes) (set_bay lib n (some t) bs) ≡ true
  all-put p lib n t tapes r bs e h =
      all-set_bay (agrees p tapes) lib n (some t) bs λ b k. ground (arith, e, h, k)

  pub all-agrees-clear :
      (p : Place) (lib n : ℕ) (tapes : List Tape) (bs : List (Bay A))
      → all (agrees p tapes) bs ≡ true
      → all (agrees p tapes) (set_bay lib n none bs) ≡ true
  all-agrees-clear p lib n tapes bs = all-set_bay (agrees p tapes) lib n none bs (λ b k. refl)

  -- The row of a tape that was found in a bay.
  pub tape_of_bay :
      (p : Place) (lib n t : ℕ) (tapes : List Tape) (bs : List (Bay A))
      → content (bay_at lib n bs) ≡ some t
      → all (agrees p tapes) bs ≡ true
      → (r : Tape) × (find_tape t tapes ≡ some r) × (p lib n r ≡ true)
  unfolding all bay_at
  tape_of_bay p lib n t tapes [] e h = cc
  tape_of_bay p lib n t tapes (b ∷ bs) e h = elim (Bool-cases (at_key lib n b)) [
    | inl here ↦ tape_of_id (p lib n) tapes t (ground (arith, here))
    | inr there ↦ tape_of_bay p lib n t tapes bs (ground (arith, there)) (ground arith)
  ]

  -- A tape that lay in no bay of the table goes into one, and its row is changed to say so.
  pub all-agrees-move_in :
      (p : Place) (lib n t : ℕ) (f : Tape → Tape) (tapes : List Tape) (r : Tape) (bs : List (Bay A))
      → ((x : Tape) → (f x).id ≡ x.id)
      → find_tape t tapes ≡ some r
      → p lib n (f r) ≡ true
      → held t bs ≡ 0
      → all (agrees p tapes) bs ≡ true
      → all (agrees p (update_tape t f tapes)) (set_bay lib n (some t) bs) ≡ true
  all-agrees-move_in p lib n t f tapes r bs keeps e h out ok =
      all-put p lib n t (update_tape t f tapes) (f r) bs
        (ground (arith, find_tape-update_tape t f t tapes keeps, e)) h
        (all-agrees-update_tape p t f tapes bs keeps out ok)

  pub all-agrees-clear_tape :
      (p : Place) (lib t : ℕ) (tapes : List Tape) (bs : List (Bay A))
      → all (agrees p tapes) bs ≡ true
      → all (agrees p tapes) (clear_tape lib t bs) ≡ true
  unfolding all clear_tape
  all-agrees-clear_tape p lib t tapes [] h = refl
  all-agrees-clear_tape p lib t tapes (b ∷ bs) h =
      ground (arith, all-agrees-clear_tape p lib t tapes bs)

  -- All the bays that hold a tape of a library are in that library, so clearing it there clears it.
  pub held-clear_tape_self :
      (p : Place) (lib t : ℕ) (r : Tape) (tapes : List Tape) (bs : List (Bay A))
      → find_tape t tapes ≡ some r
      → r.library_id ≡ lib
      → ((l n : ℕ) → p l n r ≡ true → l ≡ r.library_id)
      → all (agrees p tapes) bs ≡ true
      → held t (clear_tape lib t bs) ≡ 0
  unfolding all held clear_tape
  held-clear_tape_self p lib t r tapes [] e l says h = refl
  held-clear_tape_self p lib t r tapes (b ∷ bs) e l says h =
      ground (arith, says b.library_id b.number, held-clear_tape_self p lib t r tapes bs e l says)

  -- A tape that agrees with no bay lies in none.
  pub held_nowhere :
      (p : Place) (t : ℕ) (r : Tape) (tapes : List Tape) (bs : List (Bay A))
      → find_tape t tapes ≡ some r
      → ((l n : ℕ) → p l n r ≡ false)
      → all (agrees p tapes) bs ≡ true
      → held t bs ≡ 0
  unfolding all held
  held_nowhere p t r tapes [] e says h = refl
  held_nowhere p t r tapes (b ∷ bs) e says h =
      ground (arith, says b.library_id b.number, held_nowhere p t r tapes bs e says)

  -- The query for the library finds every bay that holds a tape of the library.
  pub held-any_holds :
      (p : Place) (lib t : ℕ) (r : Tape) (tapes : List Tape) (bs : List (Bay A))
      → find_tape t tapes ≡ some r
      → r.library_id ≡ lib
      → ((l n : ℕ) → p l n r ≡ true → l ≡ r.library_id)
      → all (agrees p tapes) bs ≡ true
      → any_holds lib t bs ≡ false
      → held t bs ≡ 0
  unfolding all held any_holds
  held-any_holds p lib t r tapes [] e l says h absent = refl
  held-any_holds p lib t r tapes (b ∷ bs) e l says h absent =
      ground (arith, says b.library_id b.number, held-any_holds p lib t r tapes bs e l says)

  pub all-agrees-clear_library :
      (p : Place) (lib : ℕ) (tapes : List Tape) (bs : List (Bay A))
      → all (agrees p tapes) bs ≡ true
      → all (agrees p tapes) (clear_library lib bs) ≡ true
  unfolding all clear_library
  all-agrees-clear_library p lib tapes [] h = refl
  all-agrees-clear_library p lib tapes (b ∷ bs) h =
      ground (arith, all-agrees-clear_library p lib tapes bs)

  -- When a library is emptied, no bay at all holds a tape of it.
  pub held-clear_library_self :
      (p : Place) (lib t : ℕ) (r : Tape) (tapes : List Tape) (bs : List (Bay A))
      → find_tape t tapes ≡ some r
      → r.library_id ≡ lib
      → ((l n : ℕ) → p l n r ≡ true → l ≡ r.library_id)
      → all (agrees p tapes) bs ≡ true
      → held t (clear_library lib bs) ≡ 0
  unfolding all held clear_library
  held-clear_library_self p lib t r tapes [] e l says h = refl
  held-clear_library_self p lib t r tapes (b ∷ bs) e l says h =
      ground
        (arith, says b.library_id b.number, held-clear_library_self p lib t r tapes bs e l says)
