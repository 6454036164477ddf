-- ===== src/Libraries/Rows.antt =====
-- Filtering and filling the tables `slots`, `drives` and `tapes`.
use vtladm.Prelude.{
  ℕ, ◌+◌, ◌≤◌, ◌≡◌, refl, arith, Bool, true, false, List, [], ◌∷◌, ◌++◌, none, some, ◌==◌, zero,
  suc, if◌then◌else◌, keep, all, inl, inr, Option-cases,
}
use vtladm.Catalog.Bays.{Bay, bay_at, at_key, held, holds, UniqueKeys, is_some}
use vtladm.Catalog.Tapes.{Tape, find_tape, UniqueIds}
use vtladm.Libraries.{insert_bay, insert_bays, bay_of_other}

pub all-keep {ℓ} :
    {A : Type ℓ} (q p : A → Bool) (xs : List A) → all q xs ≡ true → all q (keep p xs) ≡ true
unfolding all keep
all-keep q p [] h = refl
all-keep q p (x ∷ xs) h = ground (arith, all-keep q p xs)

-- Where every row that stays gains a property.
pub all-keep_gain {ℓ} :
    {A : Type ℓ} (q q' p : A → Bool) (xs : List A)
    → ((x : A) → p x ≡ true → q x ≡ true → q' x ≡ true)
    → all q xs ≡ true
    → all q' (keep p xs) ≡ true
unfolding all keep
all-keep_gain q q' p [] gain h = refl
all-keep_gain q q' p (x ∷ xs) gain h = ground (arith, all-keep_gain q q' p xs gain, gain x)

module _ {A : Type 0} where
  pub bay_at-keep :
      (p : Bay A → Bool) (l n : ℕ) (bs : List (Bay A))
      → bay_at l n bs ≡ none
      → bay_at l n (keep p bs) ≡ none
  unfolding bay_at keep
  bay_at-keep p l n [] h = refl
  bay_at-keep p l n (b ∷ bs) h = ground (arith, bay_at-keep p l n bs)

  pub keep-UniqueKeys :
      (p : Bay A → Bool) (bs : List (Bay A)) → UniqueKeys bs → UniqueKeys (keep p bs)
  unfolding keep
  keep-UniqueKeys p [] u = tt
  keep-UniqueKeys p (b ∷ bs) u =
      ground (arith, bay_at-keep p b.library_id b.number bs, keep-UniqueKeys p bs u.1)

  pub held-keep : (p : Bay A → Bool) (t : ℕ) (bs : List (Bay A)) → held t (keep p bs) ≤ held t bs
  unfolding held keep
  held-keep p t [] = omega arith
  held-keep p t (b ∷ bs) = ground (arith, held-keep p t bs)

  -- A row of another library is found as before.
  pub bay_at-keep_other :
      (lib l n : ℕ) (bs : List (Bay A))
      → (l == lib) ≡ false
      → bay_at l n (keep (bay_of_other lib) bs) ≡ bay_at l n bs
  unfolding bay_at keep
  bay_at-keep_other lib l n [] h = refl
  bay_at-keep_other lib l n (b ∷ bs) h = ground (arith, bay_at-keep_other lib l n bs h)

  -- A row at the end is found where none was before.
  bay_at-append :
      (l n : ℕ) (bs : List (Bay A)) (new : Bay A)
      → bay_at l n (bs ++ new ∷ []) ≡ (
          if is_some (bay_at l n bs)
          then bay_at l n bs
          else if at_key l n new
          then some new
          else none)
  unfolding bay_at
  bay_at-append l n [] new = refl
  bay_at-append l n (b ∷ bs) new = ground (arith, bay_at-append l n bs new)

  append-UniqueKeys :
      (bs : List (Bay A)) (new : Bay A)
      → bay_at new.library_id new.number bs ≡ none
      → UniqueKeys bs
      → UniqueKeys (bs ++ new ∷ [])
  unfolding bay_at
  append-UniqueKeys [] new h u = (refl, tt)
  append-UniqueKeys (b ∷ bs) new h u =
      ground (arith, bay_at-append b.library_id b.number bs new, append-UniqueKeys bs new, h, u)

  pub insert_bay-UniqueKeys :
      (lib n : ℕ) (a : A) (bs : List (Bay A)) → UniqueKeys bs → UniqueKeys (insert_bay lib n a bs)
  unfolding insert_bay
  insert_bay-UniqueKeys lib n a bs u = elim (Option-cases (bay_at lib n bs)) [
    | inl free ↦ rw free (append-UniqueKeys bs _ free u)
    | inr (b, there) ↦ rw there u
  ]

  held-append :
      (t : ℕ) (bs : List (Bay A)) (new : Bay A)
      → held t (bs ++ new ∷ []) ≡ held t bs + holds t new.tape_id
  unfolding held
  held-append t [] new = omega arith
  held-append t (b ∷ bs) new = omega (arith, held-append t bs new)

  pub held-insert_bay :
      (t lib n : ℕ) (a : A) (bs : List (Bay A)) → held t (insert_bay lib n a bs) ≡ held t bs
  unfolding insert_bay
  held-insert_bay t lib n a bs = elim (Option-cases (bay_at lib n bs)) [
    | inl free ↦ rw free (
        ground (
          arith,
          held-append t bs (record { library_id = lib; number = n; tape_id = none; column = a }),
        ))
    | inr (b, there) ↦ rw there refl
  ]

  pub all-append_one :
      (q : Bay A → Bool) (bs : List (Bay A)) (new : Bay A)
      → q new ≡ true
      → all q bs ≡ true
      → all q (bs ++ new ∷ []) ≡ true
  unfolding all
  all-append_one q [] new h k = rw h refl
  all-append_one q (b ∷ bs) new h k = ground (arith, all-append_one q bs new h)

  pub all-insert_bay :
      (q : Bay A → Bool) (lib n : ℕ) (a : A) (bs : List (Bay A))
      → q (record { library_id = lib; number = n; tape_id = none; column = a }) ≡ true
      → all q bs ≡ true
      → all q (insert_bay lib n a bs) ≡ true
  unfolding insert_bay
  all-insert_bay q lib n a bs h k = elim (Option-cases (bay_at lib n bs)) [
    | inl free ↦ rw free (all-append_one q bs _ h k)
    | inr (b, there) ↦ rw there k
  ]

  pub insert_bays-UniqueKeys :
      (lib start n : ℕ) (a : A) (bs : List (Bay A))
      → UniqueKeys bs
      → UniqueKeys (insert_bays lib start n a bs)
  unfolding insert_bays
  insert_bays-UniqueKeys lib start zero a bs u = u
  insert_bays-UniqueKeys lib start (suc n) a bs u =
      insert_bays-UniqueKeys lib (start + 1) n a _ (insert_bay-UniqueKeys lib start a bs u)

  pub held-insert_bays :
      (t lib start n : ℕ) (a : A) (bs : List (Bay A))
      → held t (insert_bays lib start n a bs) ≡ held t bs
  unfolding insert_bays
  held-insert_bays t lib start zero a bs = refl
  held-insert_bays t lib start (suc n) a bs = omega (
    arith,
    held-insert_bays t lib (start + 1) n a (insert_bay lib start a bs),
    held-insert_bay t lib start a bs,
  )

  pub all-insert_bays :
      (q : Bay A → Bool) (lib start n : ℕ) (a : A) (bs : List (Bay A))
      → ((i : ℕ) → q (record { library_id = lib; number = i; tape_id = none; column = a }) ≡ true)
      → all q bs ≡ true
      → all q (insert_bays lib start n a bs) ≡ true
  unfolding insert_bays
  all-insert_bays q lib start zero a bs h k = k
  all-insert_bays q lib start (suc n) a bs h k =
      all-insert_bays q lib (start + 1) n a _ h (all-insert_bay q lib start a bs (h start) k)

pub find_tape-keep :
    (p : Tape → Bool) (t : ℕ) (rs : List Tape)
    → find_tape t rs ≡ none
    → find_tape t (keep p rs) ≡ none
unfolding find_tape keep
find_tape-keep p t [] h = refl
find_tape-keep p t (r ∷ rs) h = ground (arith, find_tape-keep p t rs)

pub find_tape-keep-some :
    (p : Tape → Bool) (t : ℕ) (rs : List Tape) (r : Tape)
    → find_tape t rs ≡ some r
    → p r ≡ true
    → find_tape t (keep p rs) ≡ some r
unfolding find_tape keep
find_tape-keep-some p t [] r h k = cc h
find_tape-keep-some p t (x ∷ rs) r h k = ground (arith, find_tape-keep-some p t rs r, h, k)

pub keep-UniqueIds : (p : Tape → Bool) (rs : List Tape) → UniqueIds rs → UniqueIds (keep p rs)
unfolding keep
keep-UniqueIds p [] u = tt
keep-UniqueIds p (r ∷ rs) u = ground (arith, find_tape-keep p r.id rs, keep-UniqueIds p rs u.1)
