-- ===== src/Prelude/Decimal.antt =====
-- `to_string` of an unsigned number and `parse::<i32>()`, both of Rust's standard library.
use Prim.Native.Nat.{ℕ, zero, suc, ◌+◌, ◌-◌, ◌*◌, ◌/◌, ◌%◌, ◌≤◌}
use mathlib.Core.Path.{◌≡◌, refl}
use mathlib.Core.Bool.{Bool, true, ◌&&◌}
use mathlib.Core.List.{[], ◌∷◌}
use mathlib.Core.Option.{Option, none, some}
use mathlib.Core.Logic.{inl, inr}
use native.Mathlib.Omega.{arith}
use vtladm.Prelude.Tests.{Text, ltb, leb, ◌==◌, if◌then◌else◌, Bool-cases}
use vtladm.Prelude.Lists.{all}
use vtladm.Prelude.Int.{ℤ, pos, negsuc}

-- The digits of `n` in front of `s`. The fuel `n` is enough, since `n / 10` is below `n`.
unfoldable pub digits_onto : ℕ → ℕ → Text → Text
digits_onto zero n s = (48 + n % 10) ∷ s
digits_onto (suc f) n s =
    let rest = digits_onto f (n / 10) ((48 + n % 10) ∷ s) in if ltb n 10 then (48 + n) ∷ s else rest

unfoldable pub decimal : ℕ → Text
unfolding digits_onto
decimal n = digits_onto n n []

abbrev pub is_digit : ℕ → Bool
is_digit c = leb 48 c && leb c 57

unfoldable pub read_digits : ℕ → Text → Option ℕ
read_digits v [] = some v
read_digits v (c ∷ s) =
    let rest = read_digits (v * 10 + (c - 48)) s in if is_digit c then rest else none

-- At least one digit.
unfoldable pub read_number : Text → Option ℕ
unfolding read_digits
read_number [] = none
read_number (c ∷ s) = read_digits 0 (c ∷ s)

abbrev pub at_most : ℕ → Option ℕ → Option ℕ
at_most top none = none
at_most top (some n) = if leb n top then some n else none

abbrev pub as_pos : Option ℕ → Option ℤ
as_pos none = none
as_pos (some n) = some (pos n)

abbrev pub as_neg : Option ℕ → Option ℤ
as_neg none = none
as_neg (some zero) = some (pos 0)
as_neg (some (suc n)) = some (negsuc n)

-- An optional sign and digits, within the bounds of an `i32`.
unfoldable pub parse_i32 : Text → Option ℤ
unfolding read_number
parse_i32 [] = none
parse_i32 (c ∷ s) =
    if c == b'-'
    then as_neg (at_most 2147483648 (read_number s))
    else if c == b'+'
    then as_pos (at_most 2147483647 (read_number s))
    else as_pos (at_most 2147483647 (read_number (c ∷ s)))

read_digits-digits_onto :
    (f n : ℕ) (s : Text) → n ≤ f → read_digits 0 (digits_onto f n s) ≡ read_digits n s
unfolding read_digits digits_onto
read_digits-digits_onto zero n s h = ground arith
read_digits-digits_onto (suc f) n s h = elim (Bool-cases (ltb n 10)) [
  | inl small ↦ ground arith
  | inr large ↦
      rw large
        (rw (read_digits-digits_onto f (n / 10) ((48 + n % 10) ∷ s) (ground arith)) (ground arith))
]

pub read_digits-decimal : (n : ℕ) → read_digits 0 (decimal n) ≡ some n
unfolding decimal read_digits
read_digits-decimal n = read_digits-digits_onto n n [] (omega arith)

all-digits_onto :
    (f n : ℕ) (s : Text) → n ≤ f → all is_digit s ≡ true → all is_digit (digits_onto f n s) ≡ true
unfolding all digits_onto
all-digits_onto zero n s h t = ground arith
all-digits_onto (suc f) n s h t = elim (Bool-cases (ltb n 10)) [
  | inl small ↦ ground arith
  | inr large ↦
      rw large (all-digits_onto f (n / 10) ((48 + n % 10) ∷ s) (ground arith) (ground (arith, t)))
]

pub all-decimal : (n : ℕ) → all is_digit (decimal n) ≡ true
unfolding decimal all
all-decimal n = all-digits_onto n n [] (omega arith) refl

-- A text of digits has no sign.
parse-digits :
    (s : Text) (n : ℕ)
    → all is_digit s ≡ true
    → read_digits 0 s ≡ some n
    → n ≤ 2147483647
    → (c : ℕ) → (r : Text) → s ≡ c ∷ r
    → parse_i32 s ≡ some (pos n)
unfolding parse_i32 read_number all
parse-digits s n digits reads small c r e = rw e (ground (arith, digits, reads, e))

pub digits_onto-cons : (f n : ℕ) (s : Text) → (c : ℕ) × (r : Text) × (digits_onto f n s ≡ c ∷ r)
unfolding digits_onto
digits_onto-cons zero n s = (48 + n % 10, s, refl)
digits_onto-cons (suc f) n s = elim (Bool-cases (ltb n 10)) [
  | inl small ↦ (48 + n, s, rw small refl)
  | inr large ↦ rw large (digits_onto-cons f (n / 10) ((48 + n % 10) ∷ s))
]

-- What an `i32` prints as reads as that number.
pub parse_i32-decimal : (n : ℕ) → n ≤ 2147483647 → parse_i32 (decimal n) ≡ some (pos n)
unfolding decimal
parse_i32-decimal n small =
    let (c, r, e) = digits_onto-cons n n [] in
    parse-digits (decimal n) n (all-decimal n) (read_digits-decimal n) small c r e
