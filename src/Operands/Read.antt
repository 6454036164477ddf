-- ===== src/Operands/Read.antt =====
-- Which slots and drives the operands of vtladm-rc/userspace/src/main.rs name.
use vtladm.Prelude.{
  ℕ, Text, ◌+◌, ◌-◌, ◌≤◌, ◌≡◌, refl, arith, Bool, true, false, [], ◌∷◌, ◌++◌, none, some, leb, ◌==◌,
  length, codes, pos, negsuc, all, decimal, is_digit, all-decimal, digits_onto-cons, parse_i32,
  parse_i32-decimal, read_number, read_digits, read_digits-decimal, inl, inr, Bool-cases, zero, suc,
  ==_refl, ◌&&◌, not, ap, ◌∙◌, ==_sound,
}
use vtladm.Settings.{trim, to_ascii_lowercase}
use vtladm.Strings.{strip_prefix, starts_with}
use vtladm.Strings.Plain.{not_space, trim-plain, all-impl, all-append}
use vtladm.Operands.{
  slot_of, drive_of, mail, within, as_i32, max_slots, max_drives, strip_all, parse_slot,
  parse_drive,
}

-- Neither trimming nor lowering changes digits.
lower-digits : (s : Text) → all is_digit s ≡ true → to_ascii_lowercase s ≡ s
unfolding to_ascii_lowercase all
lower-digits [] h = refl
lower-digits (c ∷ s) h =
    let small : leb b'A' c ≡ false = ground (arith, h) in
    rw (small, lower-digits s (ground (arith, h))) refl

plain-digits : (s : Text) → all is_digit s ≡ true → all not_space s ≡ true
plain-digits s h = all-impl is_digit not_space (λ c d. ground (arith, d)) s h

-- A number has a first digit.
decimal-cons : (n : ℕ) → (c : ℕ) × (r : Text) × (decimal n ≡ c ∷ r) × (is_digit c ≡ true)
unfolding decimal all
decimal-cons n =
    let (c, r, e) = digits_onto-cons n n [] in (c, r, e, ground (arith, rw e at (all-decimal n)))

-- A byte that neither trimming nor lowering changes.
abbrev pub stays : ℕ → Bool
stays c = not_space c && not (leb b'A' c && leb c b'Z')

lower-word :
    (w s : Text) → all stays w ≡ true → to_ascii_lowercase (w ++ s) ≡ w ++ to_ascii_lowercase s
unfolding to_ascii_lowercase all
lower-word [] s h = refl
lower-word (c ∷ w) s h =
    let small : (leb b'A' c && leb c b'Z') ≡ false = ground (arith, h) in
    rw (small, lower-word w s (ground (arith, h))) refl

-- A word of small letters before a number is read as it stands.
as_it_stands :
    (w : Text) (n : ℕ)
    → all stays w ≡ true
    → to_ascii_lowercase (trim (w ++ decimal n)) ≡ w ++ decimal n
as_it_stands w n small =
    rw
      (
        trim-plain (w ++ decimal n) (
            all-append not_space w (decimal n)
              (all-impl stays not_space (λ c d. ground (arith, d)) w small)
              (plain-digits (decimal n) (all-decimal n))),
        lower-word w (decimal n) small,
        lower-digits (decimal n) (all-decimal n),
      )
      refl

-- No word begins a number.
no_word : (a : ℕ) (w : Text) (n : ℕ) → is_digit a ≡ false → strip_prefix (a ∷ w) (decimal n) ≡ none
unfolding strip_prefix
no_word a w n letter =
    let (c, r, e, d) = decimal-cons n in
    let apart : (a == c) ≡ false = elim (Bool-cases (a == c)) [
      | inr other ↦ other
      | inl same ↦ cc (rw (==_sound a c same) at letter, d)
    ] in
    rw (e, apart) refl

strip_all-none : (f : ℕ) (p s : Text) → strip_prefix p s ≡ none → strip_all f p s ≡ s
unfolding strip_all
strip_all-none zero p s h = refl
strip_all-none (suc f) p s h = rw (strip_all, h) refl

strip_all-once :
    (f : ℕ) (p s rest : Text)
    → 1 ≤ f
    → strip_prefix p s ≡ some rest
    → strip_prefix p rest ≡ none
    → strip_all f p s ≡ rest
unfolding strip_all
strip_all-once zero p s rest some_fuel once stop = ground (arith, some_fuel)
strip_all-once (suc f) p s rest some_fuel once stop =
    rw (strip_all, once) (strip_all-none f p rest stop)

strip_prefix-word : (w s : Text) → strip_prefix w (w ++ s) ≡ some s
unfolding strip_prefix
strip_prefix-word [] s = refl
strip_prefix-word (c ∷ w) s = rw (==_refl c) (strip_prefix-word w s)

-- A word is taken off a number, once.
taken_off :
    (a : ℕ) (w : Text) (n : ℕ)
    → is_digit a ≡ false
    → strip_all (length (a ∷ w ++ decimal n)) (a ∷ w) (a ∷ w ++ decimal n) ≡ decimal n
taken_off a w n letter =
    strip_all-once (length (a ∷ w ++ decimal n)) (a ∷ w) (a ∷ w ++ decimal n) (decimal n)
      (omega arith) (strip_prefix-word (a ∷ w) (decimal n)) (no_word a w n letter)

mail_small : (n : ℕ) → n ≤ 1000 → mail (some (pos n)) ≡ some (pos (100 + n))
mail_small n small = ground (arith, small)

slot_small : (n : ℕ) → n ≤ 1000 → as_i32 (within max_slots (some (pos n))) ≡ some (pos n)
slot_small n small = ground (arith, small)

drive_small : (d : ℕ) → d ≤ 100 → within max_drives (some (pos d)) ≡ some d
drive_small d few = ground (arith, few)

-- Such a text comes unchanged to the tests of its words.
parse_slot-word :
    (w : Text) (n : ℕ) → all stays w ≡ true → parse_slot (w ++ decimal n) ≡ slot_of (w ++ decimal n)
unfolding parse_slot
parse_slot-word w n h = ap slot_of (as_it_stands w n h)

parse_drive-word :
    (w : Text) (n : ℕ)
    → all stays w ≡ true
    → parse_drive (w ++ decimal n) ≡ drive_of (w ++ decimal n)
unfolding parse_drive
parse_drive-word w n h = ap drive_of (as_it_stands w n h)

-- A slot is named by its number up to 1000, alone or after `slot`, a mail slot by its number up to
-- 1000 after `mail`, and a drive by its number up to 100, alone or after `drive`.
pub operands_read :
    (n d : ℕ)
    → n ≤ 1000
    → d ≤ 100
    → (parse_slot (decimal n) ≡ some (pos n))
      × (parse_slot (codes "slot" ++ decimal n) ≡ some (pos n))
      × (parse_slot (codes "mail" ++ decimal n) ≡ some (pos (100 + n)))
      × (parse_drive (decimal d) ≡ some d)
      × (parse_drive (codes "drive" ++ decimal d) ≡ some d)
unfolding starts_with strip_prefix all
operands_read n d small few =
    let reads : parse_i32 (decimal n) ≡ some (pos n) = parse_i32-decimal n (omega (arith, small)) in
    let reads_d : parse_i32 (decimal d) ≡ some (pos d) = parse_i32-decimal d (omega (arith, few)) in
    let no_slot = no_word b's' (codes "lot") n refl in
    let no_mail = no_word b'm' (codes "ail") n refl in
    let no_drive = no_word b'd' (codes "rive") d refl in
    (
      parse_slot-word [] n refl ∙ rw (no_slot, no_mail, reads) (slot_small n small),
      parse_slot-word (codes "slot") n refl
          ∙ (ap (λ s. as_i32 (within max_slots (parse_i32 s))) (taken_off b's' (codes "lot") n refl)
              ∙ rw reads (slot_small n small)),
      parse_slot-word (codes "mail") n refl
          ∙ (ap (λ s. mail (parse_i32 s)) (taken_off b'm' (codes "ail") n refl)
              ∙ rw reads (mail_small n small)),
      parse_drive-word [] d refl ∙ rw (no_drive, reads_d) (drive_small d few),
      parse_drive-word (codes "drive") d refl
          ∙ (ap (λ s. within max_drives (parse_i32 s)) (taken_off b'd' (codes "rive") d refl)
              ∙ rw reads_d (drive_small d few)),
    )

parse_i32-minus : (n : ℕ) → n ≤ 100 → parse_i32 (45 ∷ decimal (suc n)) ≡ some (negsuc n)
unfolding parse_i32 read_number
parse_i32-minus n small =
    let (c, r, e, d) = decimal-cons (suc n) in
    let reads : read_digits 0 (c ∷ r) ≡ some (suc n) = rw e at (read_digits-decimal (suc n)) in
    rw (e, reads) (ground (arith, small))

-- For n from 1 to 100, `mail-n` names the data slot 100 - n.
pub mail_names_data_slot :
    (n : ℕ) → 1 ≤ n → n ≤ 100 → parse_slot (codes "mail-" ++ decimal n) ≡ some (pos (100 - n))
unfolding starts_with strip_prefix strip_all all
mail_names_data_slot zero some_ few = ground (arith, some_)
mail_names_data_slot (suc n) some_ few =
    parse_slot-word (codes "mail-") (suc n) refl
    ∙ rw (parse_i32-minus n (omega (arith, few))) (ground (arith, few))
