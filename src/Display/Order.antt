-- ===== src/Display/Order.antt =====
-- The selection and the order of the rows that vtladm-rc/userspace/src/robot_sync.rs reads for a
-- changer: `WHERE library_id = …` and `ORDER BY`.
use vtladm.Prelude.{
  ℕ, ◌+◌, ◌≤◌, ◌≡◌, refl, ◌∙◌, arith, Bool, true, ◌&&◌, List, [], ◌∷◌, Option, none, some, ◌==◌,
  leb, if◌then◌else◌, keep, Bool-cases, inl, inr, ==_sound,
}
use vtladm.Catalog.Bays.{Bay, bay_at, UniqueKeys}
use vtladm.Display.{insert_bay, sort_bays}

module _ {A : Type 0} where
  unfoldable pub bay_numbered : ℕ → List (Bay A) → Option (Bay A)
  bay_numbered n [] = none
  bay_numbered n (b ∷ bs) = if b.number == n then some b else bay_numbered n bs

  abbrev pub restricted : (Bay A → Bool) → Option (Bay A) → Option (Bay A)
  restricted test none = none
  restricted test (some b) = if test b then some b else none

  -- Every number is larger than the one before, the first at least `lo`.
  unfoldable pub rising : ℕ → List (Bay A) → Bool
  rising lo [] = true
  rising lo (b ∷ bs) = leb lo b.number && rising (b.number + 1) bs

  pub bay_numbered_sound :
      (n : ℕ) (bs : List (Bay A)) {b : Bay A} → bay_numbered n bs ≡ some b → b.number ≡ n
  unfolding bay_numbered
  bay_numbered_sound n [] h = cc h
  bay_numbered_sound n (c ∷ bs) {b} h = elim (Bool-cases (c.number == n)) [
    | inl same ↦ ground (arith, h, same, ==_sound c.number n)
    | inr other ↦ bay_numbered_sound n bs {b = b} (ground (arith, h, other))
  ]

  bay_numbered-insert_bay :
      (n : ℕ) (b : Bay A) (cs : List (Bay A))
      → bay_numbered n (insert_bay b cs) ≡ (if b.number == n then some b else bay_numbered n cs)
  unfolding bay_numbered insert_bay
  bay_numbered-insert_bay n b [] = refl
  bay_numbered-insert_bay n b (c ∷ cs) = ground (arith, bay_numbered-insert_bay n b cs)

  bay_numbered-sort_bays :
      (n : ℕ) (bs : List (Bay A)) → bay_numbered n (sort_bays bs) ≡ bay_numbered n bs
  unfolding bay_numbered sort_bays
  bay_numbered-sort_bays n [] = refl
  bay_numbered-sort_bays n (b ∷ bs) =
      rw (bay_numbered-insert_bay n b (sort_bays bs), bay_numbered-sort_bays n bs) refl

  rising-insert_bay :
      (lo : ℕ) (b : Bay A) (cs : List (Bay A))
      → rising lo cs ≡ true
      → lo ≤ b.number
      → bay_numbered b.number cs ≡ none
      → rising lo (insert_bay b cs) ≡ true
  unfolding rising insert_bay bay_numbered
  rising-insert_bay lo b [] up low fresh = ground arith
  rising-insert_bay lo b (c ∷ cs) up low fresh = elim (Bool-cases (leb b.number c.number)) [
    | inl first ↦ ground (arith, first, up, low, fresh)
    | inr later ↦
        let rest : rising (c.number + 1) (insert_bay b cs) ≡ true =
          rising-insert_bay (c.number + 1) b cs (ground (arith, up)) (ground (arith, later))
            (ground (arith, fresh)) in
        ground (arith, later, up, rest)
  ]

  -- The rows of the library that pass a test.
  module _ (lib : ℕ) (selects test : Bay A → Bool)
      (by_library : (b : Bay A) → selects b ≡ (b.library_id == lib && test b)) where
    bay_numbered-keep :
        (n : ℕ) (bs : List (Bay A))
        → UniqueKeys bs
        → bay_numbered n (keep selects bs) ≡ restricted test (bay_at lib n bs)
    unfolding bay_numbered keep bay_at
    bay_numbered-keep n [] u = refl
    bay_numbered-keep n (b ∷ bs) u =
        let rest = bay_numbered-keep n bs u.1 in
        let absent : (b.library_id == lib && b.number == n) ≡ true → bay_at lib n bs ≡ none =
          λ h. ground (arith, u.0, h, ==_sound b.library_id lib, ==_sound b.number n) in
        elim (Bool-cases (b.library_id == lib && b.number == n)) [
          | inl here ↦ elim (Bool-cases (test b)) [
            | inl passes ↦ ground (arith, by_library b, here, passes)
            | inr fails ↦ ground (arith, by_library b, here, fails, rest, absent here)
          ]
          | inr apart ↦ ground (arith, by_library b, apart, rest)
        ]

    pub rising-sort_bays :
        (bs : List (Bay A)) → UniqueKeys bs → rising 0 (sort_bays (keep selects bs)) ≡ true
    unfolding sort_bays keep rising
    rising-sort_bays [] u = refl
    rising-sort_bays (b ∷ bs) u = elim (Bool-cases (selects b)) [
      | inr leaves ↦ rw leaves (rising-sort_bays bs u.1)
      | inl takes ↦
          let here : b.library_id ≡ lib =
            ==_sound b.library_id lib (ground (arith, by_library b, takes)) in
          let absent : bay_at lib b.number bs ≡ none = rw (← here) u.0 in
          rw takes (
            rising-insert_bay 0 b (sort_bays (keep selects bs)) (rising-sort_bays bs u.1)
              (omega arith)
              (bay_numbered-sort_bays b.number (keep selects bs)
                ∙ bay_numbered-keep b.number bs u.1
                ∙ rw absent refl))
    ]

    pub bay_numbered-selected :
        (n : ℕ) (bs : List (Bay A))
        → UniqueKeys bs
        → bay_numbered n (sort_bays (keep selects bs)) ≡ restricted test (bay_at lib n bs)
    bay_numbered-selected n bs u =
        bay_numbered-sort_bays n (keep selects bs) ∙ bay_numbered-keep n bs u

-- A selected row has the number that it was selected by.
pub bay_at_number :
    {A : Type 0} (lib n : ℕ) (test : Bay A → Bool) (bs : List (Bay A)) (b : Bay A)
    → restricted test (bay_at lib n bs) ≡ some b
    → b.number ≡ n
unfolding bay_at
bay_at_number lib n test [] b h = cc h
bay_at_number lib n test (c ∷ cs) b h = elim (Bool-cases (c.library_id == lib && c.number == n)) [
  | inr apart ↦ bay_at_number lib n test cs b (rw apart at h)
  | inl here ↦ elim (Bool-cases (test c)) [
    | inl passes ↦
        let e : c ≡ b = ground (arith, h, here, passes) in
        rw (← e) (==_sound c.number n (ground (arith, here)))
    | inr fails ↦ ground (arith, h, here, fails)
  ]
]
