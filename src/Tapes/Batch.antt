-- ===== src/Tapes/Batch.antt =====
-- The runs of `create_tape` and of the batches of vtladm-rc/userspace/src/main.rs, whatever the disk
-- answers.
use vtladm.Prelude.{ℕ, Text, ◌≡◌, ◌⊎◌, refl, List, [], ◌∷◌, Option, inl, inr, ◌∙◌}
use vtladm.Errors.{VtlError, Result, ok, err, Result-cases}
use vtladm.Catalog.{Catalog}
use vtladm.Catalog.Tapes.{Tape}
use vtladm.Changer.World.{World, M, ◌>>=◌, transact, pure, lift, query}
use vtladm.Align.Keeps.{KeepsDb}
use vtladm.Handlers.{with_unit}
use vtladm.Offline.{on_disk, tape_image_path}
use vtladm.Libraries.Online.{found-has_id}
use vtladm.Tapes.{
  Machine, make_library_dir, draw_barcode, make_tape, create_tape, create_each, create_items,
  auto_names, create_named, create_auto_named_tapes_batch, create_tapes_batch, check_create,
  insert_tape,
}
use vtladm.Tapes.Quota.{Quotas}
use vtladm.Tapes.Sound.{
  IsSound, Inserted, check_create_sound, insert_tape_sound, inserted-IsSound, checked_unused,
}

-- An operation ends with an error and the catalog that it found, or commits.
abbrev pub Ends : {K B : Type 0} → Catalog → (Catalog → Type 0) → Result B × World K → Type 0
Ends {B} db C out =
    ((e : VtlError) × (out.0 ≡ err e) × (out.1.db ≡ db)) ⊎ ((b : B) × (out.0 ≡ ok b) × C out.1.db)

-- A step before the commit, which leaves the catalog alone.
pub bind-Ends :
    {K A B : Type 0} (db : Catalog) (C : Catalog → Type 0) (m : M K A) (f : A → M K B) (w : World K)
    → KeepsDb m
    → w.db ≡ db
    → ((a : A) (k : World K) → k.db ≡ db → Ends db C (f a k))
    → Ends db C ((m >>= f) w)
bind-Ends db C m f w keeps same next = elim (Result-cases (m w).0) [
  | inl (a, done) ↦ rw done (next a (m w).1 (keeps w ∙ same))
  | inr (e, failed) ↦ rw failed (inl (e, refl, keeps w ∙ same))
]

commit-Ends :
    {K : Type 0} (db : Catalog) (C : Catalog → Type 0) (f : Catalog → Result Catalog) (w : World K)
    → w.db ≡ db
    → ((after : Catalog) → f db ≡ ok after → C after)
    → Ends {B = Unit {0}} db C (transact (λ c. with_unit (f c)) w)
commit-Ends db C f w same commits = elim (Result-cases (f db)) [
  | inl (after, done) ↦ rw (same, done) (inr (tt, refl, commits after done))
  | inr (e, failed) ↦ rw (same, failed) (inl (e, refl, refl))
]

-- What a tape that was made is: the checks passed, and the row was inserted.
abbrev pub Made : Quotas → Text → Text → ℕ → Option Text → Catalog → Catalog → Type 0
Made q lib_name name size shelf_name db after =
    (lib : ℕ) × (shelf : ℕ) × (new : Tape) × (check_create q lib_name name size shelf_name db
      ≡ ok (lib, shelf))
    × Inserted db lib name size after new

module _ {K : Type 0} (m : Machine K) (q : Quotas) (tape_dir : Text) where
  make_tape-Ends :
      (lib_name name : Text) (size lib shelf : ℕ) (w : World K)
      → Ends w.db
          (λ after. (new : Tape) × Inserted w.db lib name size after new)
          (make_tape m q tape_dir lib_name name size (lib, shelf) w)
  unfolding make_tape
  make_tape-Ends lib_name name size lib shelf w =
      let path : Text = tape_image_path m.files tape_dir lib_name name in
      let C : Catalog → Type 0 = λ after. (new : Tape) × Inserted w.db lib name size after new in
      let row : Text → M K (Unit {0}) =
        λ code. transact (λ db. with_unit (insert_tape lib shelf code name size path db)) in
      bind-Ends w.db C (make_library_dir m q tape_dir lib_name) _ w (λ k. refl) refl
        λ _ a ea.
          bind-Ends w.db C (on_disk (m.create path)) _ a (λ k. refl) ea
            λ _ b eb.
              bind-Ends w.db C (on_disk (m.set_len path size)) _ b (λ k. refl) eb
                λ _ c ec.
                  bind-Ends w.db C (draw_barcode m q tape_dir) row c (λ k. refl) ec
                    λ code d ed.
                      commit-Ends w.db C (insert_tape lib shelf code name size path) d ed
                        λ after done. insert_tape_sound w.db lib shelf code name size path done

  pub create_tape-Ends :
      (lib_name name : Text) (size : ℕ) (shelf_name : Option Text) (w : World K)
      → Ends w.db
          (Made q lib_name name size shelf_name w.db)
          (create_tape m q tape_dir lib_name name size shelf_name w)
  unfolding create_tape
  create_tape-Ends lib_name name size shelf_name w =
      elim (Result-cases (check_create q lib_name name size shelf_name w.db)) [
        | inr (e, refused) ↦ rw refused (inl (e, refl, refl))
        | inl ((lib, shelf), passed) ↦ elim (make_tape-Ends lib_name name size lib shelf w) [
          | inl failed ↦ rw passed (inl failed)
          | inr (b, done, (new, ins)) ↦ rw passed (inr (b, done, (lib, shelf, new, refl, ins)))
        ]
      ]

-- Whatever an operation answers, a sound catalog is sound afterwards.
abbrev pub KeepsSound : {K A : Type 0} → M K A → Type 0
KeepsSound {K} m = (w : World K) → IsSound w.db → IsSound (m w).1.db

pub bind-KeepsSound :
    {K A B : Type 0} (m : M K A) (f : A → M K B)
    → KeepsSound m
    → ((a : A) → KeepsSound (f a))
    → KeepsSound (m >>= f)
bind-KeepsSound m f hm hf w s = elim (Result-cases (m w).0) [
  | inl (a, done) ↦ rw done (hf a (m w).1 (hm w s))
  | inr (e, failed) ↦ rw failed (hm w s)
]

-- A tape that was made keeps a sound catalog sound.
pub Made-IsSound :
    (q : Quotas) (lib_name name : Text) (size : ℕ) (shelf_name : Option Text) (db after : Catalog)
    → Made q lib_name name size shelf_name db after
    → IsSound db
    → IsSound after
Made-IsSound q lib_name name size shelf_name db after (lib, shelf, new, passed, ins) s =
    let (found, elsewhere, here, _) =
      check_create_sound q lib_name name size shelf_name db passed in
    inserted-IsSound db after lib name size new ins s (found-has_id lib_name lib db.libraries found)
      (checked_unused db.libraries lib name db.tapes s.housed elsewhere here)

module _ {K : Type 0} (m : Machine K) (q : Quotas) (tape_dir : Text) where
  pub create_tape-KeepsSound :
      (lib_name name : Text) (size : ℕ) (shelf_name : Option Text)
      → KeepsSound (create_tape m q tape_dir lib_name name size shelf_name)
  create_tape-KeepsSound lib_name name size shelf_name w s =
      elim (create_tape-Ends m q tape_dir lib_name name size shelf_name w) [
        | inl (e, failed, same) ↦ rw same s
        | inr (u, done, made) ↦ Made-IsSound q lib_name name size shelf_name w.db _ made s
      ]

  create_each-KeepsSound :
      (library : Text) (shelf : Option Text) (size : ℕ) (names : List Text)
      → KeepsSound (create_each m q tape_dir library shelf size names)
  unfolding create_each
  create_each-KeepsSound library shelf size [] = λ w s. s
  create_each-KeepsSound library shelf size (name ∷ names) =
      bind-KeepsSound (create_tape m q tape_dir library name size shelf)
        (λ _. create_each m q tape_dir library shelf size names)
        (create_tape-KeepsSound library name size shelf)
        (λ _. create_each-KeepsSound library shelf size names)

  create_items-KeepsSound :
      (library : Text) (shelf : Option Text) (items : List (Text × Text))
      → KeepsSound (create_items m q tape_dir library shelf items)
  unfolding create_items
  create_items-KeepsSound library shelf [] = λ w s. s
  create_items-KeepsSound library shelf ((name, size_s) ∷ items) =
      bind-KeepsSound
        (lift (q.parse_size size_s) >>= λ size. create_tape m q tape_dir library name size shelf)
        (λ _. create_items m q tape_dir library shelf items)
        (bind-KeepsSound (lift (q.parse_size size_s))
          (λ size. create_tape m q tape_dir library name size shelf) (λ w s. s)
          (λ size. create_tape-KeepsSound library name size shelf))
        (λ _. create_items-KeepsSound library shelf items)

  -- A batch keeps the catalog sound, whatever the disk answers, also when it fails after some of the
  -- tapes were made: the catalog stays valid, and no two tapes have one name.
  pub create_batch-KeepsSound :
      (library : Text) (shelf : Option Text) (items : List (Text × Text))
      → KeepsSound (create_tapes_batch m q tape_dir library shelf items)
  unfolding create_tapes_batch
  create_batch-KeepsSound library shelf [] = λ w s. s
  create_batch-KeepsSound library shelf (item ∷ items) =
      create_items-KeepsSound library shelf (item ∷ items)

  -- So does a batch of automatic names.
  pub create_auto-KeepsSound :
      (library : Text) (shelf : Option Text) (count size : ℕ)
      → KeepsSound (create_auto_named_tapes_batch m q tape_dir library shelf count size)
  unfolding create_auto_named_tapes_batch
  create_auto-KeepsSound library shelf count size =
      bind-KeepsSound (query (auto_names library count))
        (create_named m q tape_dir library shelf size) (λ w s. s)
        (λ names.
          bind-KeepsSound (create_each m q tape_dir library shelf size names) (λ _. pure names)
            (create_each-KeepsSound library shelf size names) (λ _ w s. s))
