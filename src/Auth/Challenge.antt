-- ===== src/Auth/Challenge.antt =====
-- The arithmetic captcha of vtladm-rc/userspace/src/web_auth.rs.
use vtladm.Prelude.{
  ℕ, Text, ◌+◌, ◌-◌, ◌*◌, ◌%◌, Bool, false, ◌++◌, Option, none, some, ◌==◌, ltb, leb, if◌then◌else◌,
  codes, lookup, insert, keep, ℤ, pos, negsuc, decimal, parse_i32,
}
use vtladm.Settings.{trim}
use vtladm.Auth.{WebState, Timed, secs, captcha_secs, remove, retain}

pub data Op : Type 0 where
  plus minus times : Op

abbrev pub op_text : Op → Text
op_text plus = codes "+"
op_text minus = codes "-"
op_text times = codes "*"

abbrev pub max : ℕ → ℕ → ℕ
max a b = if leb a b then b else a

abbrev pub min : ℕ → ℕ → ℕ
min a b = if leb a b then a else b

-- An `i32` difference.
abbrev pub minus_i32 : ℕ → ℕ → ℤ
minus_i32 a b = if ltb a b then negsuc (b - a - 1) else pos (a - b)

abbrev pub answer : Op → ℕ → ℕ → ℤ
answer plus a b = pos (a + b)
answer minus a b = minus_i32 a b
answer times a b = pos (a * b)

abbrev pub question : Op → ℕ → ℕ → Text
question op a b =
    decimal a ++ (codes " " ++ (op_text op ++ (codes " " ++ (decimal b ++ codes " = ?"))))

-- What `new_captcha` draws: the id, two bytes and an operator.
pub record Draw : Type 0 where
  pub id : Text
  pub byte_a : ℕ
  pub byte_b : ℕ
  pub op : Op

abbrev pub one_to_nine : ℕ → ℕ
one_to_nine byte = byte % 9 + 1

abbrev pub left : Draw → ℕ
left d = max (one_to_nine d.byte_a) (one_to_nine d.byte_b)

abbrev pub right : Draw → ℕ
right d = min (one_to_nine d.byte_a) (one_to_nine d.byte_b)

-- `now` is read before the drawing, `made` after it.
unfoldable pub new_captcha : Draw → ℕ → ℕ → WebState → (Text × Text) × WebState
unfolding insert keep decimal
new_captcha d now made st = (
  (d.id, question d.op (left d) (right d)),
  record st {
    captcha =
        insert d.id (record { what = answer d.op (left d) (right d); since = made })
          (retain now (captcha_secs + 60) st.captcha);
  },
)

abbrev pub ℤ_eq : ℤ → ℤ → Bool
ℤ_eq (pos a) (pos b) = a == b
ℤ_eq (negsuc a) (negsuc b) = a == b
ℤ_eq (pos a) (negsuc b) = false
ℤ_eq (negsuc a) (pos b) = false

abbrev pub judged : ℤ → ℕ → Option (Timed ℤ) → Bool
judged ans now none = false
judged ans now (some e) = if ltb (secs captcha_secs) (now - e.since) then false else ℤ_eq ans e.what

abbrev pub answered : Text → ℕ → WebState → Option ℤ → Bool × WebState
answered id now st none = (false, st)
answered id now st (some ans) =
    (judged ans now (lookup id st.captcha), record st { captcha = remove id st.captcha })

unfoldable pub verify_captcha : Text → Text → ℕ → WebState → Bool × WebState
unfolding lookup keep trim parse_i32
verify_captcha id answer_str now st = answered id now st (parse_i32 (trim answer_str))
