-- ===== src/Media/Blank.antt =====
-- What is left in the image file of a tape that was made blank.
use vtladm.Prelude.{ℕ, Text, ◌≡◌, refl, sym, ap, arith, ◌-◌, ◌++◌, ◌∙◌, List, [], ◌∷◌, length, take}
use vtladm.Errors.{Result, ok, err}
use vtladm.Catalog.{Catalog, resolve_library_id}
use vtladm.Catalog.Tapes.{Tape}
use vtladm.Changer.{IoResult, done, failed, zeros}
use vtladm.Changer.World.{World, M, continue, commit}
use vtladm.Changer.Calls.{io_result}
use vtladm.Handlers.{with_unit}
use vtladm.Offline.{on_disk, undone}
use vtladm.Media.{Images, check_init, blank_rows, blank_tape, previous_length, init_tape_in_library}

-- `File::set_len`: the file is cut, or filled with zeros.
abbrev pub resize : ℕ → List ℕ → List ℕ
resize n bytes = take n bytes ++ zeros (n - length bytes)

take-length : (xs : List ℕ) → take (length xs) xs ≡ xs
take-length [] = refl
take-length (x ∷ xs) = ap (λ ys. x ∷ ys) (take-length xs)

append_nil : (xs : List ℕ) → xs ++ [] ≡ xs
append_nil [] = refl
append_nil (x ∷ xs) = ap (λ ys. x ∷ ys) (append_nil xs)

-- A file that has the length already stays.
resize-length : (n : ℕ) (xs : List ℕ) → length xs ≡ n → resize n xs ≡ xs
unfolding zeros
resize-length n xs h = rw (sym h) (ground (arith, take-length xs, append_nil xs))

io_done : (x : IoResult (Unit {0})) (u : Unit {0}) → io_result x ≡ ok u → x ≡ done tt
io_done (done t) u h = refl
io_done (failed e) u h = cc h

module _ {K : Type 0} where
  then_ok :
      {A B : Type 0} (f : A → M K B) (r : Result A) (v : World K) (b : B)
      → (continue f r v).0 ≡ ok b
      → (a : A) × (r ≡ ok a) × (continue f r v ≡ f a v)
  then_ok f (ok a) v b h = (a, refl, refl)
  then_ok f (err e) v b h = cc h

  undone-kernel :
      (undo : M K (Unit {0})) (w : World K) (p : Result (Unit {0} × Catalog))
      → (undone undo (commit w p).0 (commit w p).1).0 ≡ ok tt
      → (undone undo (commit w p).0 (commit w p).1).1.kernel ≡ w.kernel
  undone-kernel undo w (ok (u, db)) h = refl
  undone-kernel undo w (err e) h = cc h

module _ {K : Type 0} (fs : Images K) (content : Text → K → List ℕ)
    (opened : (path : Text) (k : K) → content path (fs.open_write path k).1 ≡ content path k)
    (resized : (path : Text) (n : ℕ) (k : K)
      → (fs.set_len path n k).0 ≡ done tt
      → content path (fs.set_len path n k).1 ≡ resize n (content path k))
    (synced : (path : Text) (k : K) → content path (fs.sync_all path k).1 ≡ content path k) where
  blank_tape-content :
      (name : Text) (r : Tape) (w : World K)
      → (blank_tape fs name r w).0 ≡ ok tt
      → content r.image_path (blank_tape fs name r w).1.kernel
        ≡ resize r.capacity_bytes (content r.image_path w.kernel)
  unfolding blank_tape
  blank_tape-content name r w h =
      let path = r.image_path in
      let k1 = (fs.open_write path w.kernel).1 in
      let w1 = (on_disk (fs.open_write path) w).1 in
      let (u1, e1, q1) = then_ok _ (on_disk (fs.open_write path) w).0 w1 tt h in
      let (n, e2, q2) =
        then_ok _ (previous_length fs path w1).0 w1 tt (sym (ap (λ x. x.0) q1) ∙ h) in
      let w3 = (on_disk (fs.set_len path r.capacity_bytes) w1).1 in
      let (u3, e3, q3) =
        then_ok _ (on_disk (fs.set_len path r.capacity_bytes) w1).0 w3 tt
          (sym (ap (λ x. x.0) (q1 ∙ q2)) ∙ h) in
      let w4 = (on_disk (fs.sync_all path) w3).1 in
      let last =
        undone-kernel (on_disk (fs.set_len path n)) w4 (with_unit (blank_rows name r.id w4.db))
          (sym (ap (λ x. x.0) (q1 ∙ q2 ∙ q3)) ∙ h) in
      ap (λ x. content path x.1.kernel) (q1 ∙ q2 ∙ q3)
      ∙ ap (content path) last
      ∙ synced path w3.kernel
      ∙ resized path r.capacity_bytes k1 (io_done _ u3 e3)
      ∙ ap (resize r.capacity_bytes) (opened path w.kernel)

  -- Making a tape blank, where it succeeds and the image file has the tape's capacity as its length,
  -- leaves every byte of the file as it was.
  pub init_tape_keeps_content :
      (library name : Text) (lib : ℕ) (r : Tape) (w : World K)
      → resolve_library_id w.db library ≡ ok lib
      → check_init w.db lib name ≡ ok r
      → length (content r.image_path w.kernel) ≡ r.capacity_bytes
      → (init_tape_in_library fs library name w).0 ≡ ok tt
      → content r.image_path (init_tape_in_library fs library name w).1.kernel
        ≡ content r.image_path w.kernel
  unfolding init_tape_in_library
  init_tape_keeps_content library name lib r w e1 e2 full h =
      let start : init_tape_in_library fs library name w ≡ blank_tape fs name r w =
        rw (e1, e2) refl in
      ap (λ x. content r.image_path x.1.kernel) start
      ∙ blank_tape-content name r w (sym (ap (λ x. x.0) start) ∙ h)
      ∙ resize-length r.capacity_bytes (content r.image_path w.kernel) full
