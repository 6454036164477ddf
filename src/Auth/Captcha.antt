-- ===== src/Auth/Captcha.antt =====
-- How often a captcha of vtladm-rc/userspace/src/web_auth.rs takes an answer, and which number
-- it asks for.
use vtladm.Prelude.{
  ℕ, Text, ◌+◌, ◌-◌, ◌*◌, ◌≤◌, ◌≡◌, ◌↔◌, refl, arith, true, false, [], ◌∷◌, none, some,
  if◌then◌else◌, text_eq, text_eq_refl, text_eq_trans, Dict, lookup, keep, ℤ, pos, negsuc,
  parse_i32, is_digit, all, Option-cases, inl, inr, ==_sound, ==_refl, all, text_eq_sym,
}
use vtladm.Settings.{trim}
use vtladm.Strings.Plain.{trim-plain, all-impl, not_space}
use vtladm.Auth.{WebState, remove}
use vtladm.Auth.Challenge.{Draw, Op, plus, minus, times, answer, left, right, verify_captcha, ℤ_eq}

-- A removed key is gone, and no other is.
pub lookup-remove :
    {V : Type 0} (k j : Text) (m : Dict V)
    → lookup j (remove k m) ≡ (if text_eq j k then none else lookup j m)
unfolding lookup keep
lookup-remove k j [] = ground arith
lookup-remove k j ((i, v) ∷ m) =
    ground (arith, lookup-remove k j m, text_eq_trans i j k, text_eq_trans i k j, text_eq_sym j k)

-- What the question asks for.
abbrev pub value : Op → ℕ → ℕ → ℕ
value plus a b = a + b
value minus a b = a - b
value times a b = a * b

pub answer-value : (op : Op) (a b : ℕ) → b ≤ a → answer op a b ≡ pos (value op a b)
answer-value plus a b h = refl
answer-value minus a b h = ground arith
answer-value times a b h = refl

-- The larger number stands first.
pub operands : (d : Draw) → (1 ≤ right d) × (right d ≤ left d) × (left d ≤ 9)
operands d = ground arith

product_small : (a b : ℕ) → a ≤ 9 → b ≤ 9 → a * b ≤ 81
product_small a b h k = grind arith

pub value_small : (op : Op) (a b : ℕ) → a ≤ 9 → b ≤ 9 → value op a b ≤ 81
value_small plus a b h k = omega arith
value_small minus a b h k = omega arith
value_small times a b h k = product_small a b h k

pub ℤ_eq_iff : (a b : ℤ) → (ℤ_eq a b ≡ true) ↔ (a ≡ b)
ℤ_eq_iff (pos a) (pos b) = (λ h. ground (arith, ==_sound a b), λ e. ground (arith, ==_refl a))
ℤ_eq_iff (negsuc a) (negsuc b) = (λ h. ground (arith, ==_sound a b), λ e. ground (arith, ==_refl a))
ℤ_eq_iff (pos a) (negsuc b) = (λ h. cc, λ e. cc)
ℤ_eq_iff (negsuc a) (pos b) = (λ h. cc, λ e. cc)

-- A text of digits has no space around it.
pub trim-digits : (s : Text) → all is_digit s ≡ true → trim s ≡ s
trim-digits s h = trim-plain s (all-impl is_digit not_space (λ c d. ground (arith, d)) s h)

-- Once an answer that reads as a number was given for a captcha, right or wrong, in time or late,
-- no answer for it is taken again; the other captchas are judged as before.
pub verify_captcha_once :
    (id other first second : Text) (now later : ℕ) (st : WebState) {n : ℤ}
    → parse_i32 (trim first) ≡ some n
    → text_eq other id ≡ false
    → ((verify_captcha id second later (verify_captcha id first now st).1).0 ≡ false)
      × ((verify_captcha other second later (verify_captcha id first now st).1).0
          ≡ (verify_captcha other second later st).0)
unfolding verify_captcha
verify_captcha_once id other first second now later st reads apart =
    elim (Option-cases (parse_i32 (trim second))) [
      | inl bad ↦ rw (reads, bad) (refl, refl)
      | inr (ans, good) ↦
          rw
            (
              reads,
              good,
              lookup-remove id id st.captcha,
              lookup-remove id other st.captcha,
              text_eq_refl id,
              apart,
            )
            (refl, refl)
    ]
