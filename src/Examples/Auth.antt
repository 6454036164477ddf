-- ===== src/Examples/Auth.antt =====
-- Signing in, on a state with crates that hash and print in a simple way.
use vtladm.Prelude.{
  ℕ, Text, List, ◌≡◌, ◌≤◌, refl, arith, true, false, ◌&&◌, not, [], ◌∷◌, Option, none, some,
  if◌then◌else◌, text_eq, text_eq_refl, text_eq_sound, codes, inl, inr, keep, lookup, insert,
  length, decimal, all, ◌-◌, ◌↔◌, ◌⊎◌, pos, parse_i32, read_number, read_digits,
}
use vtladm.Settings.{trim, trim_start, trim_end, skip_space}
use vtladm.Auth.{
  Crates, Failure, allow_iscsi_exec, WebAuthFile, WebState, new, default_web_user,
  default_web_password, login, session_username, change_password, secs, write_auth,
}
use vtladm.Auth.Challenge.{Draw, minus, question, new_captcha, verify_captcha}
use vtladm.Auth.Captcha.{value, verify_captcha_once}
use vtladm.Auth.Kept.{new_captcha_takes}
use vtladm.Auth.Sessions.{Event, captcha_made, captcha_tried, signed_in, signed_out, looked_up, run}
use vtladm.Auth.Trace.{session_was_granted, Granted}
use vtladm.Auth.Lasting.{session_lasts}
use vtladm.Auth.Password.{AreLawful, change_password_replaces}

-- The hash is the password, and the file holds the hash of the default user.
abbrev plain_crates : Crates
plain_crates = record {
  hash = λ p. some p;
  verify = λ q h. some (text_eq q h);
  from_str = λ s.
      some (record { username = default_web_user; password_hash = s; allow_iscsi_exec = false });
  to_string_pretty = λ cred.
      if text_eq cred.username default_web_user && not cred.allow_iscsi_exec
      then some cred.password_hash
      else none;
}

printed_back :
    (cred : WebAuthFile) (body : Text)
    → plain_crates.to_string_pretty cred ≡ some body
    → plain_crates.from_str body ≡ some cred
printed_back cred body h =
    let name : cred.username ≡ default_web_user =
      text_eq_sound cred.username default_web_user (ground (arith, h)) in
    ground (arith, h, name)

plain_crates-AreLawful : AreLawful plain_crates
plain_crates-AreLawful = record {
  verify_own = λ p h e. ground (arith, e, text_eq_refl p);
  parse_printed = printed_back;
}

abbrev file : Option Text
file = some default_web_password

abbrev start : WebState
start = new file

-- 9 - 2, made at 10 s and answered at 200 s.
abbrev drawn : Draw
drawn = record { id = codes "c1"; byte_a = 1; byte_b = 8; op = minus }

-- Another captcha is drawn, and an answer for this one is no number.
abbrev meanwhile : List Event
meanwhile =
    captcha_tried (codes "c1") (codes "seven") (secs 190)
    ∷ captcha_made (record drawn { id = codes "c2" }) (secs 180) (secs 180)
    ∷ []

new_captcha_takes_example :
    (a : ℕ) × (b : ℕ) × ((new_captcha drawn 0 (secs 10) start).0 ≡ (codes "c1", question minus a b))
    × (1 ≤ b)
    × (b ≤ a)
    × (a ≤ 9)
    × ((verify_captcha
          (codes "c1")
          (decimal (value minus a b))
          (secs 200)
          (run plain_crates (new_captcha drawn 0 (secs 10) start).1 meanwhile)).0
        ≡ true)
    × (((verify_captcha
            (codes "c1")
            (codes " 7")
            (secs 200)
            (run plain_crates (new_captcha drawn 0 (secs 10) start).1 meanwhile)).0
          ≡ true)
        ↔ (parse_i32 (trim (codes " 7")) ≡ some (pos (value minus a b))))
unfolding all text_eq trim trim_start trim_end skip_space parse_i32 read_number read_digits
new_captcha_takes_example =
    new_captcha_takes plain_crates drawn 0 (secs 10) (secs 200) start meanwhile (codes " 7") refl
      (omega arith)

abbrev asked : WebState
asked = (new_captcha drawn 0 (secs 10) start).1

verify_captcha_once_example :
    ((verify_captcha
        (codes "c1")
        (codes "7")
        (secs 30)
        (verify_captcha (codes "c1") (codes "8") (secs 20) asked).1).0
      ≡ false)
    × ((verify_captcha
          (codes "c2")
          (codes "7")
          (secs 30)
          (verify_captcha (codes "c1") (codes "8") (secs 20) asked).1).0
        ≡ (verify_captcha (codes "c2") (codes "7") (secs 30) asked).0)
unfolding trim trim_start trim_end skip_space parse_i32 read_number read_digits text_eq
verify_captcha_once_example =
    verify_captcha_once (codes "c1") (codes "c2") (codes "8") (codes "7") (secs 20) (secs 30) asked
      refl refl

abbrev token : Text
token = codes "t1"

abbrev sign_in : Event
sign_in = signed_in default_web_user default_web_password token (secs 5) (secs 5)

session_was_granted_example :
    (t : ℕ) × Granted plain_crates (new file) token default_web_user t (sign_in ∷ [])
    × (secs 60 - t ≤ secs 86400)
unfolding run session_username login text_eq insert keep lookup new
session_was_granted_example =
    session_was_granted plain_crates file (sign_in ∷ []) token default_web_user (secs 60) refl

session_lasts_example :
    (session_username (some token) (secs 80000) (
      run plain_crates
        (login plain_crates default_web_user default_web_password token 0 0 start).1
        (looked_up (some token) (secs 70000) ∷ signed_out (codes "t2") ∷ []))).0
    ≡ some default_web_user
unfolding login text_eq all new
session_lasts_example =
    session_lasts plain_crates default_web_user default_web_password token 0 0 (secs 80000) start
      (looked_up (some token) (secs 70000) ∷ signed_out (codes "t2") ∷ []) refl refl (omega arith)

abbrev or_start : Failure ⊎ WebState → WebState
or_start (inl e) = start
or_start (inr st) = st

abbrev new_password : Text
new_password = codes "changed-1"

abbrev changed : WebState
changed = or_start (change_password plain_crates true default_web_password new_password start)

change_password_replaces_example :
    (h : Text) × (plain_crates.hash new_password ≡ some h)
    × ((login plain_crates default_web_user default_web_password token 0 0 start).0 ≡ inr token)
    × (8 ≤ length new_password)
    × ((login plain_crates default_web_user new_password token 0 0 changed).0 ≡ inr token)
    × (((login plain_crates default_web_user (codes "other") token 0 0 changed).0 ≡ inr token)
        ↔ (plain_crates.verify (codes "other") h ≡ some true))
    × (changed.sessions ≡ start.sessions)
    × (allow_iscsi_exec plain_crates changed ≡ allow_iscsi_exec plain_crates start)
unfolding change_password write_auth text_eq new
change_password_replaces_example =
    change_password_replaces plain_crates true default_web_user default_web_password new_password
      (codes "other") token 0 0 start
      (record {
        username = default_web_user;
        password_hash = default_web_password;
        allow_iscsi_exec = false;
      })
      plain_crates-AreLawful refl refl refl
