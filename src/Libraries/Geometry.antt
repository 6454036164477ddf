-- ===== src/Libraries/Geometry.antt =====
-- How many drives, data slots and mail slots a library has that was made.
use vtladm.Prelude.{
  ℕ, Text, ◌+◌, ◌-◌, ◌≤◌, ◌≡◌, refl, arith, Bool, true, false, ◌&&◌, ◌||◌, not, List, [], ◌∷◌, ◌++◌,
  none, ◌==◌, leb, ltb, zero, suc, if◌then◌else◌, keep, all, length, Bool-cases, inl, inr, ==_refl,
  ==_sound, Option-cases, ap, subst, ◌∙◌,
}
use vtladm.Errors.{ok}
use vtladm.Catalog.{Catalog, find_library}
use vtladm.Catalog.Bays.{Bay, bay_at, is_some}
use vtladm.Geometry.{count_drives, count_data_slots}
use vtladm.Elements.{mailslot_offset}
use vtladm.Libraries.{Tables, create_rows, insert_bay, insert_bays, library_made}
use vtladm.Libraries.Create.{created, made_row}

abbrev empty_bay : {A : Type 0} → ℕ → ℕ → A → Bay A
empty_bay lib n a = record { library_id = lib; number = n; tape_id = none; column = a }

module _ {A : Type 0} where
  abbrev count : (Bay A → Bool) → List (Bay A) → ℕ
  count q bs = length (keep q bs)

  has : ℕ → ℕ → List (Bay A) → Bool
  has l m bs = is_some (bay_at l m bs)

  count-append :
      (q : Bay A → Bool) (bs : List (Bay A)) (new : Bay A)
      → count q (bs ++ new ∷ []) ≡ count q bs + (if q new then 1 else 0)
  unfolding keep
  count-append q [] new = ground arith
  count-append q (b ∷ bs) new = ground (arith, count-append q bs new)

  count-insert_bay :
      (q : Bay A → Bool) (lib n : ℕ) (a : A) (bs : List (Bay A))
      → count q (insert_bay lib n a bs)
        ≡ count q bs + (if has lib n bs then 0 else if q (empty_bay lib n a) then 1 else 0)
  unfolding insert_bay has
  count-insert_bay q lib n a bs = elim (Option-cases (bay_at lib n bs)) [
    | inl free ↦ rw free (count-append q bs (empty_bay lib n a))
    | inr (b, there) ↦ rw there (omega arith)
  ]

  has-append :
      (l m : ℕ) (bs : List (Bay A)) (new : Bay A)
      → has l m (bs ++ new ∷ []) ≡ (has l m bs || (new.library_id == l && new.number == m))
  unfolding bay_at has
  has-append l m [] new = ground arith
  has-append l m (b ∷ bs) new = ground (arith, has-append l m bs new)

  has-insert_bay :
      (lib n m : ℕ) (a : A) (bs : List (Bay A))
      → has lib m (insert_bay lib n a bs) ≡ (has lib m bs || (n == m))
  unfolding insert_bay
  has-insert_bay lib n m a bs = elim (Option-cases (bay_at lib n bs)) [
    | inl free ↦ rw free (rw (has-append lib m bs (empty_bay lib n a), ==_refl lib) refl)
    | inr (b, there) ↦ rw there (elim (Bool-cases (n == m)) [
      | inl same ↦
          let e : n ≡ m = ==_sound n m same in
          let h : has lib m bs ≡ true =
            subst (λ k. has lib k bs ≡ true) e (unfold has in rw there refl) in
          rw h refl
      | inr other ↦ ground (arith, other)
    ])
  ]

  has-insert_bays :
      (lib start n m : ℕ) (a : A) (bs : List (Bay A))
      → has lib m (insert_bays lib start n a bs)
        ≡ (has lib m bs || (leb start m && ltb m (start + n)))
  unfolding insert_bays
  has-insert_bays lib start zero m a bs = ground arith
  has-insert_bays lib start (suc n) m a bs =
      has-insert_bays lib (start + 1) n m a (insert_bay lib start a bs)
      ∙ rw (has-insert_bay lib start m a bs) (ground arith)

  -- Rows that no row with their key stands in the way of.
  count_filled :
      (q : Bay A → Bool) (lib start n : ℕ) (a : A) (bs : List (Bay A))
      → ((i : ℕ) → start ≤ i → has lib i bs ≡ false)
      → ((i : ℕ) → q (empty_bay lib i a) ≡ true)
      → count q (insert_bays lib start n a bs) ≡ count q bs + n
  unfolding insert_bays
  count_filled q lib start zero a bs free counts = omega arith
  count_filled q lib start (suc n) a bs free counts =
      count_filled q lib (start + 1) n a (insert_bay lib start a bs)
        (λ i above. rw (has-insert_bay lib start i a bs) (ground (arith, free i, above))) counts
      ∙ ground (arith, count-insert_bay q lib start a bs, free start, counts start)

  -- Rows that are not counted.
  pub count_uncounted :
      (q : Bay A → Bool) (lib start n : ℕ) (a : A) (bs : List (Bay A))
      → ((i : ℕ) → q (empty_bay lib i a) ≡ false)
      → count q (insert_bays lib start n a bs) ≡ count q bs
  unfolding insert_bays
  count_uncounted q lib start zero a bs none_ = refl
  count_uncounted q lib start (suc n) a bs none_ =
      count_uncounted q lib (start + 1) n a (insert_bay lib start a bs) none_
      ∙ ground (arith, count-insert_bay q lib start a bs, none_ start)

  has_none :
      (lib m : ℕ) (bs : List (Bay A))
      → all (λ b. not (b.library_id == lib)) bs ≡ true
      → has lib m bs ≡ false
  unfolding all has bay_at
  has_none lib m [] h = refl
  has_none lib m (b ∷ bs) h = ground (arith, has_none lib m bs)

  count_none :
      (q : Bay A → Bool) (lib : ℕ) (bs : List (Bay A))
      → ((b : Bay A) → q b ≡ true → (b.library_id == lib) ≡ true)
      → all (λ b. not (b.library_id == lib)) bs ≡ true
      → count q bs ≡ 0
  unfolding all keep
  count_none q lib [] only h = refl
  count_none q lib (b ∷ bs) only h = ground (arith, only b, count_none q lib bs only)

abbrev pub mail : ℕ → Bay Bool → Bool
mail lib b = b.library_id == lib && b.column

abbrev data_bay : ℕ → Bay Bool → Bool
data_bay lib b = b.library_id == lib && not b.column

mail_step :
    (lib n : ℕ) (bs : List (Bay Bool))
    → count (mail lib) (insert_bay lib n true bs)
      ≡ count (mail lib) bs + (if has lib n bs then 0 else 1)
mail_step lib n bs = count-insert_bay (mail lib) lib n true bs ∙ rw (==_refl lib) refl

-- The number of mail slots that `s` data slots leave room for.
abbrev pub mail_slots_left : ℕ → ℕ
mail_slots_left s = if leb s 100 then 4 else 104 - s

-- The four mail slots, where the data slots 0 to `s - 1` stand already.
count_mail :
    (lib s : ℕ) (bs : List (Bay Bool))
    → ((i : ℕ) → has lib i bs ≡ ltb i s)
    → count (mail lib) (insert_bays lib mailslot_offset 4 true bs)
      ≡ count (mail lib) bs + mail_slots_left s
unfolding insert_bays
count_mail lib s bs there =
    let one = insert_bay lib 100 true bs in
    let two = insert_bay lib 101 true one in
    let three = insert_bay lib 102 true two in
    let h1 : has lib 101 one ≡ ltb 101 s =
      has-insert_bay lib 100 101 true bs ∙ rw (there 101) (ground arith) in
    let h2 : has lib 102 two ≡ ltb 102 s =
      has-insert_bay lib 101 102 true one
      ∙ rw (has-insert_bay lib 100 102 true bs, there 102) (ground arith) in
    let h3 : has lib 103 three ≡ ltb 103 s =
      has-insert_bay lib 102 103 true two
      ∙ rw (has-insert_bay lib 101 103 true one, has-insert_bay lib 100 103 true bs, there 103)
          (ground arith) in
    rw
      (
        mail_step lib 103 three,
        mail_step lib 102 two,
        mail_step lib 101 one,
        mail_step lib 100 bs,
        h1,
        h2,
        h3,
        there 100,
      )
      (ground arith)

-- The slots of a library that had none: `s` data slots, and the mail slots that find room.
slots_of :
    (lib s : ℕ) (bs : List (Bay Bool))
    → all (λ b. not (b.library_id == lib)) bs ≡ true
    → (count (data_bay lib) (insert_bays lib mailslot_offset 4 true (insert_bays lib 0 s false bs))
        ≡ s)
      × (count (mail lib) (insert_bays lib mailslot_offset 4 true (insert_bays lib 0 s false bs))
          ≡ mail_slots_left s)
slots_of lib s bs fresh =
    let filled = insert_bays lib 0 s false bs in
    let free : (i : ℕ) → has lib i bs ≡ false = λ i. has_none lib i bs fresh in
    (
      count_uncounted (data_bay lib) lib mailslot_offset 4 true filled (λ i. ground arith)
          ∙ (count_filled (data_bay lib) lib 0 s false bs (λ i _. free i)
                (λ i. rw (==_refl lib) refl)
              ∙ omega (arith, count_none (data_bay lib) lib bs (λ b h. ground (arith, h)) fresh)),
      count_mail lib s filled (λ i. has-insert_bays lib 0 s i false bs ∙ rw (free i) (ground arith))
          ∙ omega (
            arith,
            count_uncounted (mail lib) lib 0 s false bs (λ i. ground arith),
            count_none (mail lib) lib bs (λ b h. ground (arith, h)) fresh,
          ),
    )

-- A library that is made anew has as many drives and data slots as were asked for, and the four mail
-- slots if the data slots are at most 100: each data slot from number 100 on takes the number of one.
pub created_bays :
    (name : Text) (d s : ℕ) (tables : Tables) {after : Tables}
    → find_library name tables.db.libraries ≡ none
    → all (λ b. not (b.library_id == tables.db.next_library)) tables.db.slots ≡ true
    → all (λ b. not (b.library_id == tables.db.next_library)) tables.db.drives ≡ true
    → create_rows name d s tables ≡ ok after
    → (count_drives after.db tables.db.next_library ≡ d)
      × (count_data_slots after.db tables.db.next_library ≡ s)
      × (length (keep (mail tables.db.next_library) after.db.slots) ≡ mail_slots_left s)
unfolding count_drives count_data_slots
created_bays name d s tables {after} new no_slots no_drives done =
    let (lib, base, made, e, _) = created name d s tables done in
    let (_, id, _, slots, drives, _) =
      made_row name tables.db base lib
        (subst (λ o. library_made name o tables.db ≡ ok (lib, base)) new made) in
    let next = tables.db.next_library in
    let ed : insert_bays next 0 d tt tables.db.drives ≡ after.db.drives =
      rw (id, drives) at (ap (λ (c : Catalog). c.drives) e) in
    let es : insert_bays next mailslot_offset 4 true (insert_bays next 0 s false tables.db.slots)
        ≡ after.db.slots =
      rw (id, slots) at (ap (λ (c : Catalog). c.slots) e) in
    let (data_, mail_) = slots_of next s tables.db.slots no_slots in
    (
      rw (← ed) (
          count_filled (λ b. b.library_id == next) next 0 d tt tables.db.drives
            (λ i _. has_none next i tables.db.drives no_drives) (λ i. ==_refl next)
          ∙ omega (
            arith,
            count_none (λ b. b.library_id == next) next tables.db.drives (λ b h. h) no_drives,
          )),
      rw (← es) data_,
      rw (← es) mail_,
    )
