-- ===== src/Catalog/Bays.antt =====
-- The tables `slots` and `drives`: rows with the primary key (library_id, number) and the tape that
-- lies there. `A` is the type of a table's further column.
use vtladm.Prelude.{
  ℕ, ◌+◌, ◌≤◌, ◌≡◌, refl, Bool, true, false, ◌&&◌, ◌||◌, List, [], ◌∷◌, Option, none, some, arith,
  ◌==◌, if◌then◌else◌,
}

pub record Bay (A : Type 0) : Type 0 where
  pub library_id : ℕ
  pub number : ℕ
  pub tape_id : Option ℕ
  pub column : A

abbrev pub is_some {ℓ} : {A : Type ℓ} → Option A → Bool
is_some none = false
is_some (some a) = true

-- 1 for the tape `t`, 0 for no tape and for another.
abbrev pub holds : ℕ → Option ℕ → ℕ
holds t none = 0
holds t (some x) = if x == t then 1 else 0

-- `tape_id = t`, which no NULL satisfies.
abbrev pub is_held : ℕ → Option ℕ → Bool
is_held t none = false
is_held t (some x) = x == t

module _ {A : Type 0} where
  abbrev pub at_key : ℕ → ℕ → Bay A → Bool
  at_key lib n b = b.library_id == lib && b.number == n

  -- The row with a key, if there is one.
  unfoldable pub bay_at : ℕ → ℕ → List (Bay A) → Option (Bay A)
  bay_at lib n [] = none
  bay_at lib n (b ∷ bs) = if at_key lib n b then some b else bay_at lib n bs

  -- `SELECT tape_id … WHERE library_id = lib AND number = n`, then `.optional()?.flatten()`.
  abbrev pub content : Option (Bay A) → Option ℕ
  content none = none
  content (some b) = b.tape_id

  -- `UPDATE … SET tape_id = v WHERE library_id = lib AND number = n`.
  unfoldable pub set_bay : ℕ → ℕ → Option ℕ → List (Bay A) → List (Bay A)
  set_bay lib n v [] = []
  set_bay lib n v (b ∷ bs) =
      (if at_key lib n b then record b { tape_id = v } else b) ∷ set_bay lib n v bs

  -- `UPDATE … SET tape_id = NULL WHERE library_id = lib`.
  unfoldable pub clear_library : ℕ → List (Bay A) → List (Bay A)
  clear_library lib [] = []
  clear_library lib (b ∷ bs) =
      (if b.library_id == lib then record b { tape_id = none } else b) ∷ clear_library lib bs

  -- `UPDATE … SET tape_id = NULL WHERE library_id = lib AND tape_id = t`.
  unfoldable pub clear_tape : ℕ → ℕ → List (Bay A) → List (Bay A)
  clear_tape lib t [] = []
  clear_tape lib t (b ∷ bs) =
      (if b.library_id == lib && is_held t b.tape_id then record b { tape_id = none } else b)
      ∷ clear_tape lib t bs

  -- Whether a row of the library holds the tape: `COUNT(*) … > 0`.
  unfoldable pub any_holds : ℕ → ℕ → List (Bay A) → Bool
  any_holds lib t [] = false
  any_holds lib t (b ∷ bs) = b.library_id == lib && is_held t b.tape_id || any_holds lib t bs

  -- How many rows hold the tape `t`.
  unfoldable pub held : ℕ → List (Bay A) → ℕ
  held t [] = 0
  held t (b ∷ bs) = holds t b.tape_id + held t bs

  -- The primary key: no key stands in two rows.
  abbrev pub UniqueKeys : List (Bay A) → Type 0
  UniqueKeys [] = Unit {0}
  UniqueKeys (b ∷ bs) = (bay_at b.library_id b.number bs ≡ none) × UniqueKeys bs

  pub set_bay_absent :
      (lib n : ℕ) (v : Option ℕ) (bs : List (Bay A))
      → bay_at lib n bs ≡ none
      → set_bay lib n v bs ≡ bs
  unfolding bay_at set_bay
  set_bay_absent lib n v [] h = refl
  set_bay_absent lib n v (b ∷ bs) h = ground (arith, set_bay_absent lib n v bs)

  -- A write keeps every key where it was.
  pub bay_at-set_bay :
      (lib n : ℕ) (v : Option ℕ) (l m : ℕ) (bs : List (Bay A))
      → bay_at l m bs ≡ none
      → bay_at l m (set_bay lib n v bs) ≡ none
  unfolding bay_at set_bay
  bay_at-set_bay lib n v l m [] h = refl
  bay_at-set_bay lib n v l m (b ∷ bs) h = ground (arith, bay_at-set_bay lib n v l m bs)

  -- A read of another key is unchanged by a write.
  pub bay_at-set_bay_other :
      (lib n : ℕ) (v : Option ℕ) (l m : ℕ) (bs : List (Bay A))
      → (l == lib && m == n) ≡ false
      → bay_at l m (set_bay lib n v bs) ≡ bay_at l m bs
  unfolding bay_at set_bay
  bay_at-set_bay_other lib n v l m [] h = refl
  bay_at-set_bay_other lib n v l m (b ∷ bs) h =
      ground (arith, bay_at-set_bay_other lib n v l m bs h)

  pub set_bay-UniqueKeys :
      (lib n : ℕ) (v : Option ℕ) (bs : List (Bay A))
      → UniqueKeys bs
      → UniqueKeys (set_bay lib n v bs)
  unfolding set_bay
  set_bay-UniqueKeys lib n v [] h = tt
  set_bay-UniqueKeys lib n v (b ∷ bs) h =
      ground
        (arith, bay_at-set_bay lib n v b.library_id b.number bs, set_bay-UniqueKeys lib n v bs h.1)

  -- A write takes the old tape out of the count and puts the new one in, if the row is there.
  pub held-set_bay :
      (t lib n : ℕ) (v : Option ℕ) (bs : List (Bay A))
      → UniqueKeys bs
      → held t (set_bay lib n v bs) + holds t (content (bay_at lib n bs))
        ≡ held t bs + (if is_some (bay_at lib n bs) then holds t v else 0)
  unfolding bay_at set_bay held
  held-set_bay t lib n v [] u = refl
  held-set_bay t lib n v (b ∷ bs) u =
      ground (arith, held-set_bay t lib n v bs u.1, set_bay_absent lib n v bs)

  -- Where the tape lies in the row read, the table holds it.
  pub held-bay_at :
      (t lib n : ℕ) (bs : List (Bay A)) → holds t (content (bay_at lib n bs)) ≤ held t bs
  unfolding bay_at held
  held-bay_at t lib n [] = omega arith
  held-bay_at t lib n (b ∷ bs) = ground (arith, held-bay_at t lib n bs)

  -- The only tape of a row that is cleared lies in no row afterwards.
  pub held_cleared :
      (lib n t : ℕ) (bs : List (Bay A))
      → UniqueKeys bs
      → content (bay_at lib n bs) ≡ some t
      → held t bs ≤ 1
      → held t (set_bay lib n none bs) ≡ 0
  held_cleared lib n t bs u e h = ground (arith, held-set_bay t lib n none bs u, e)

  -- Clearing one tape: no other count changes.
  pub held-clear_tape : (t lib x : ℕ) (bs : List (Bay A)) → held t (clear_tape lib x bs) ≤ held t bs
  unfolding clear_tape held
  held-clear_tape t lib x [] = omega arith
  held-clear_tape t lib x (b ∷ bs) = ground (arith, held-clear_tape t lib x bs)

  pub held-clear_tape_other :
      (t lib x : ℕ) (bs : List (Bay A))
      → (t == x) ≡ false
      → held t (clear_tape lib x bs) ≡ held t bs
  unfolding clear_tape held
  held-clear_tape_other t lib x [] h = refl
  held-clear_tape_other t lib x (b ∷ bs) h = ground (arith, held-clear_tape_other t lib x bs h)

  pub bay_at-clear_tape :
      (lib x l m : ℕ) (bs : List (Bay A))
      → bay_at l m bs ≡ none
      → bay_at l m (clear_tape lib x bs) ≡ none
  unfolding bay_at clear_tape
  bay_at-clear_tape lib x l m [] h = refl
  bay_at-clear_tape lib x l m (b ∷ bs) h = ground (arith, bay_at-clear_tape lib x l m bs)

  pub clear_tape-UniqueKeys :
      (lib x : ℕ) (bs : List (Bay A)) → UniqueKeys bs → UniqueKeys (clear_tape lib x bs)
  unfolding clear_tape
  clear_tape-UniqueKeys lib x [] h = tt
  clear_tape-UniqueKeys lib x (b ∷ bs) h =
      ground (
        arith,
        bay_at-clear_tape lib x b.library_id b.number bs,
        clear_tape-UniqueKeys lib x bs h.1,
      )

  pub bay_at-clear_library :
      (lib l m : ℕ) (bs : List (Bay A))
      → bay_at l m bs ≡ none
      → bay_at l m (clear_library lib bs) ≡ none
  unfolding bay_at clear_library
  bay_at-clear_library lib l m [] h = refl
  bay_at-clear_library lib l m (b ∷ bs) h = ground (arith, bay_at-clear_library lib l m bs)

  pub clear_library-UniqueKeys :
      (lib : ℕ) (bs : List (Bay A)) → UniqueKeys bs → UniqueKeys (clear_library lib bs)
  unfolding clear_library
  clear_library-UniqueKeys lib [] h = tt
  clear_library-UniqueKeys lib (b ∷ bs) h = ground (
    arith,
    bay_at-clear_library lib b.library_id b.number bs,
    clear_library-UniqueKeys lib bs h.1,
  )

  pub held-clear_library :
      (t lib : ℕ) (bs : List (Bay A)) → held t (clear_library lib bs) ≤ held t bs
  unfolding clear_library held
  held-clear_library t lib [] = omega arith
  held-clear_library t lib (b ∷ bs) = ground (arith, held-clear_library t lib bs)

  -- A write of a tape adds at most that tape.
  pub held-set_bay-le :
      (u lib n t : ℕ) (bs : List (Bay A))
      → UniqueKeys bs
      → held u (set_bay lib n (some t) bs) ≤ held u bs + holds u (some t)
  held-set_bay-le u lib n t bs k = ground (arith, held-set_bay u lib n (some t) bs k)
