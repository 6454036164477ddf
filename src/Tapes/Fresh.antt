-- ===== src/Tapes/Fresh.antt =====
-- The automatic names of vtladm-rc/userspace/src/main.rs against the names that the library has.
use vtladm.Prelude.{
  ℕ, Text, ◌+◌, ◌-◌, ◌%◌, ◌≤◌, ◌≡◌, refl, arith, Bool, true, false, ◌&&◌, not, List, [], ◌∷◌, ◌++◌,
  some, ◌==◌, zero, suc, inl, inr, Bool-cases, text_eq, text_eq_sound, all, decimal, is_digit,
  read_digits, read_number, read_digits-decimal, all-decimal, digits_onto-cons, length, ==_refl,
  sym, ap, ◌∙◌,
}
use vtladm.Errors.{ok}
use vtladm.Catalog.{Catalog, resolve_library_id}
use vtladm.Catalog.Bays.{is_some}
use vtladm.Catalog.Tapes.{Tape, find_named}
use vtladm.Strings.{strip_prefix}
use vtladm.Shelves.{is_in, has_duplicate}
use vtladm.Tapes.{auto_names}
use vtladm.Tapes.Auto.{
  auto_tape_name_prefix, number_after, max, max_suffix, max_auto_tape_suffix_for_library, zeros,
  padded, names_from, last_number, allocate_auto_tape_names,
}

strip_prefix-append : (p s : Text) → strip_prefix p (p ++ s) ≡ some s
unfolding strip_prefix
strip_prefix-append [] s = refl
strip_prefix-append (c ∷ p) s = rw (==_refl c) (strip_prefix-append p s)

read_digits-zeros : (k : ℕ) (s : Text) → read_digits 0 (zeros k s) ≡ read_digits 0 s
unfolding read_digits zeros
read_digits-zeros zero s = refl
read_digits-zeros (suc k) s = read_digits-zeros k s

all-zeros : (k : ℕ) (s : Text) → all is_digit s ≡ true → all is_digit (zeros k s) ≡ true
unfolding all zeros
all-zeros zero s h = h
all-zeros (suc k) s h = ground (arith, all-zeros k s h)

zeros-cons :
    (k : ℕ) (s : Text) (c : ℕ) (r : Text) → s ≡ c ∷ r → (d : ℕ) × (t : Text) × (zeros k s ≡ d ∷ t)
unfolding zeros
zeros-cons zero s c r e = (c, r, e)
zeros-cons (suc k) s c r e = (48, zeros k s, refl)

number_of_digits :
    (s : Text) (n d : ℕ) (t : Text)
    → s ≡ d ∷ t
    → all is_digit s ≡ true
    → read_digits 0 s ≡ some n
    → n ≤ 18446744073709551615
    → number_after (some s) ≡ n
unfolding read_number
number_of_digits s n d t e digits reads small =
    rw e (ground (arith, rw e at digits, rw e at reads, small))

-- A number that was padded is read as it was.
number_after-padded :
    (width n : ℕ) → n ≤ 18446744073709551615 → number_after (some (padded width n)) ≡ n
unfolding padded decimal
number_after-padded width n small =
    let (c, r, e) = digits_onto-cons n n [] in
    let k : ℕ = width - length (decimal n) in
    let (d, t, f) = zeros-cons k (decimal n) c r e in
    number_of_digits (zeros k (decimal n)) n d t f (all-zeros k (decimal n) (all-decimal n))
      (rw (read_digits-zeros k (decimal n)) (read_digits-decimal n)) small

max_suffix-top :
    (lib : ℕ) (prefix : Text) (top : ℕ) (rs : List Tape) → top ≤ max_suffix lib prefix top rs
unfolding max_suffix
max_suffix-top lib prefix top [] = omega arith
max_suffix-top lib prefix top (r ∷ rs) = elim (Bool-cases (r.library_id == lib)) [
  | inl here ↦ rw here (
      ground
        (arith, max_suffix-top lib prefix (max top (number_after (strip_prefix prefix r.name))) rs))
  | inr other ↦ rw other (max_suffix-top lib prefix top rs)
]

-- A name of the library has no number above the largest.
named_below :
    (lib : ℕ) (prefix name : Text) (rs : List Tape) (top : ℕ)
    → is_some (find_named lib name rs) ≡ true
    → number_after (strip_prefix prefix name) ≤ max_suffix lib prefix top rs
unfolding find_named max_suffix
named_below lib prefix name [] top h = cc h
named_below lib prefix name (r ∷ rs) top h =
    elim (Bool-cases (r.library_id == lib && text_eq r.name name)) [
      | inl found ↦
          let here : (r.library_id == lib) ≡ true = ground (arith, found) in
          let same : r.name ≡ name = text_eq_sound r.name name (ground (arith, found)) in
          rw (here, same)
            (ground (
              arith,
              max_suffix-top lib prefix (max top (number_after (strip_prefix prefix name))) rs,
            ))
      | inr other ↦ named_below lib prefix name rs _ (rw other at h)
    ]

abbrev numbered : Text → ℕ → ℕ → Text
numbered prefix width n = prefix ++ padded width n

number_after-numbered :
    (prefix : Text) (width n : ℕ)
    → n ≤ 18446744073709551615
    → number_after (strip_prefix prefix (numbered prefix width n)) ≡ n
number_after-numbered prefix width n small =
    rw (strip_prefix-append prefix (padded width n)) (number_after-padded width n small)

-- Two numbers do not give one name.
numbered_apart :
    (prefix : Text) (width a b : ℕ)
    → a ≤ 18446744073709551615
    → b ≤ 18446744073709551615
    → (a == b) ≡ false
    → text_eq (numbered prefix width a) (numbered prefix width b) ≡ false
numbered_apart prefix width a b ha hb apart =
    elim (Bool-cases (text_eq (numbered prefix width a) (numbered prefix width b))) [
      | inr differ ↦ differ
      | inl same ↦
          let e : numbered prefix width a ≡ numbered prefix width b = text_eq_sound _ _ same in
          let n : a ≡ b =
            sym (number_after-numbered prefix width a ha)
            ∙ ap (λ s. number_after (strip_prefix prefix s)) e
            ∙ number_after-numbered prefix width b hb in
          ground (arith, n, apart)
    ]

-- No later name of the batch is an earlier one.
is_in-names_from :
    (prefix : Text) (width a n k : ℕ)
    → a + 1 ≤ n
    → n + k ≤ 18446744073709551616
    → is_in (numbered prefix width a) (names_from prefix width n k) ≡ false
unfolding is_in names_from
is_in-names_from prefix width a n zero below fits = refl
is_in-names_from prefix width a n (suc k) below fits =
    let apart : (n == a) ≡ false = ground (arith, below) in
    rw (numbered_apart prefix width n a (omega arith) (omega arith) apart)
      (is_in-names_from prefix width a (n + 1) k (omega arith) (omega arith))

has_duplicate-names_from :
    (prefix : Text) (width n k : ℕ)
    → n + k ≤ 18446744073709551616
    → has_duplicate (names_from prefix width n k) ≡ false
unfolding has_duplicate names_from
has_duplicate-names_from prefix width n zero fits = refl
has_duplicate-names_from prefix width n (suc k) fits =
    rw (is_in-names_from prefix width n (n + 1) k (omega arith) (omega arith))
      (has_duplicate-names_from prefix width (n + 1) k (omega arith))

length-names_from : (prefix : Text) (width n k : ℕ) → length (names_from prefix width n k) ≡ k
unfolding names_from
length-names_from prefix width n zero = refl
length-names_from prefix width n (suc k) = omega (arith, length-names_from prefix width (n + 1) k)

abbrev pub is_free : ℕ → List Tape → Text → Bool
is_free lib tapes name = not (is_some (find_named lib name tapes))

free_above :
    (lib : ℕ) (prefix : Text) (width n k : ℕ) (tapes : List Tape)
    → max_suffix lib prefix 0 tapes + 1 ≤ n
    → n + k ≤ 18446744073709551616
    → all (is_free lib tapes) (names_from prefix width n k) ≡ true
unfolding all names_from
free_above lib prefix width n zero tapes above fits = refl
free_above lib prefix width n (suc k) tapes above fits =
    elim (Bool-cases (is_some (find_named lib (numbered prefix width n) tapes))) [
      | inl taken ↦
          let bound = named_below lib prefix (numbered prefix width n) tapes 0 taken in
          let e = number_after-numbered prefix width n (omega arith) in
          ground (arith, above, rw e at bound)
      | inr free ↦ rw free (free_above lib prefix width (n + 1) k tapes (omega arith) (omega arith))
    ]

auto_names_result :
    (library : Text) (count lib : ℕ) (db : Catalog) {names : List Text}
    → resolve_library_id db library ≡ ok lib
    → auto_names library count db ≡ ok names
    → ((count == 0) ≡ false)
      × (names
          ≡ allocate_auto_tape_names library
              ((max_auto_tape_suffix_for_library lib library db.tapes + 1) % 18446744073709551616)
              count)
unfolding auto_names
auto_names_result library count lib db named done = ground (arith, named, done)

-- Without a wrap around, the range is the one asked for.
allocated :
    (library : Text) (start n : ℕ)
    → start + n ≤ 18446744073709551615
    → (width : ℕ) × (allocate_auto_tape_names library start (suc n)
        ≡ names_from (auto_tape_name_prefix library) width start (suc n))
unfolding allocate_auto_tape_names
allocated library start n fits =
    let end : last_number start (suc n) ≡ start + n = ground arith in
    let many : start + n + 1 - start ≡ suc n = omega arith in
    (max 2 (length (decimal (start + n))), rw (end, many) refl)

-- The names that a batch gives are as many as were asked for, all different, and none of them is
-- the name of a tape of the library, as long as the numbers stay below 2 ^ 64.
pub auto_names_fresh :
    (library : Text) (count lib : ℕ) (db : Catalog) {names : List Text}
    → resolve_library_id db library ≡ ok lib
    → auto_names library count db ≡ ok names
    → max_auto_tape_suffix_for_library lib library db.tapes + count ≤ 18446744073709551615
    → (length names ≡ count)
      × (has_duplicate names ≡ false)
      × (all (is_free lib db.tapes) names ≡ true)
auto_names_fresh library zero lib db named done fits =
    cc (auto_names_result library zero lib db named done).0
auto_names_fresh library (suc n) lib db named done fits =
    let top : ℕ = max_auto_tape_suffix_for_library lib library db.tapes in
    let (_, same) = auto_names_result library (suc n) lib db named done in
    let start : (top + 1) % 18446744073709551616 ≡ top + 1 = ground (arith, fits) in
    let (width, range) = allocated library (top + 1) n (omega (arith, fits)) in
    let prefix : Text = auto_tape_name_prefix library in
    rw (same, start, range)
      (
        length-names_from prefix width (top + 1) (suc n),
        has_duplicate-names_from prefix width (top + 1) (suc n) (omega (arith, fits)),
        unfold max_auto_tape_suffix_for_library in
            free_above lib prefix width (top + 1) (suc n) db.tapes (omega arith)
              (omega (arith, fits)),
      )
