-- ===== src/Auth.antt =====
-- Signing in to the web interface: vtladm-rc/userspace/src/web_auth.rs. The crates that it uses,
-- bcrypt and serde_json, are parameters; so are the numbers that `rand` and `uuid` draw and the
-- times that `Instant::now` returns, in nanoseconds.
pub mod Challenge
pub mod Captcha
pub mod Sessions
pub mod Trace
pub mod Kept
pub mod Lasting
pub mod Password
use vtladm.Prelude.{
  ℕ, Text, ◌+◌, ◌-◌, ◌*◌, Bool, true, false, ◌&&◌, not, List, [], ◌∷◌, ◌++◌, Option, none, some,
  ◌==◌, ltb, leb, length, if◌then◌else◌, text_eq, codes, ◌⊎◌, inl, inr, Dict, lookup, insert, keep,
  ℤ,
}

pub record WebAuthFile : Type 0 where
  pub username : Text
  pub password_hash : Text
  pub allow_iscsi_exec : Bool

-- `bcrypt::hash` at the default cost, `bcrypt::verify`, `serde_json::from_str` and
-- `serde_json::to_string_pretty` of a `WebAuthFile`; `none` where they return an error.
pub record Crates : Type 0 where
  pub hash : Text → Option Text
  pub verify : Text → Text → Option Bool
  pub from_str : Text → Option WebAuthFile
  pub to_string_pretty : WebAuthFile → Option Text

-- An entry of a table, with its `Instant`.
pub record Timed (V : Type 0) : Type 0 where
  pub what : V
  pub since : ℕ

-- `auth_file` is what the file holds, `none` where there is no file.
pub record WebState : Type 0 where
  pub auth_file : Option Text
  pub captcha : Dict (Timed ℤ)
  pub sessions : Dict (Timed Text)

pub data LoginFail : Type 0 where
  bad_credentials auth_file_error : LoginFail

-- The texts of the other errors.
pub data Failure : Type 0 where
  too_short wrong_password hash_failed file_failed : Failure

infixl 5 ◌>>=◌ ◌>>◌
abbrev pub ◌>>=◌ : {E A B : Type 0} → E ⊎ A → (A → E ⊎ B) → E ⊎ B
inl e >>= next = inl e
inr a >>= next = next a

abbrev pub ◌>>◌ : {E B : Type 0} → E ⊎ Unit {0} → E ⊎ B → E ⊎ B
first >> second = first >>= λ _. second

abbrev pub refuse : {E : Type 0} → Bool → E → E ⊎ Unit {0}
refuse true e = inl e
refuse false e = inr tt

abbrev pub ok_or : {E A : Type 0} → Option A → E → E ⊎ A
ok_or none e = inl e
ok_or (some a) e = inr a

abbrev pub unwrap_or_false : Option Bool → Bool
unwrap_or_false none = false
unwrap_or_false (some b) = b

abbrev pub default_web_user : Text
default_web_user = codes "admin"

abbrev pub default_web_password : Text
default_web_password = codes "4rfVBNji9"

abbrev pub secs : ℕ → ℕ
secs n = n * 1000000000

-- `SESSION_SECS` and `CAPTCHA_SECS`.
abbrev pub session_secs : ℕ
session_secs = 86400

abbrev pub captcha_secs : ℕ
captcha_secs = 300

-- `HashMap::remove`.
abbrev pub other_key : {V : Type 0} → Text → Text × V → Bool
other_key k (j, v) = not (text_eq j k)

abbrev pub remove : {V : Type 0} → Text → Dict V → Dict V
remove k = keep (other_key k)

-- `retain(|_, (_, t)| now.duration_since(*t) < …)`; `duration_since` stops at 0.
abbrev pub younger : {V : Type 0} → ℕ → ℕ → Text × Timed V → Bool
younger now limit (k, e) = ltb (now - e.since) (secs limit)

abbrev pub retain : {V : Type 0} → ℕ → ℕ → Dict (Timed V) → Dict (Timed V)
retain now limit = keep (younger now limit)

unfoldable pub new : Option Text → WebState
new file = record { auth_file = file; captcha = []; sessions = [] }

-- The file is read and parsed.
abbrev pub parsed : Crates → Option Text → Option WebAuthFile
parsed c none = none
parsed c (some s) = c.from_str s

abbrev pub read_auth : Crates → WebState → Failure ⊎ WebAuthFile
read_auth c st = ok_or (parsed c st.auth_file) file_failed

-- `disk` says whether writing the temporary file and renaming it succeed.
unfoldable pub write_auth : Crates → Bool → WebAuthFile → WebState → Failure ⊎ WebState
write_auth c disk cred st = do
  body ← ok_or (c.to_string_pretty cred) file_failed
  refuse (not disk) file_failed
  inr (record st { auth_file = some body })

unfoldable pub write_default_auth : Crates → Bool → Text → WebState → Failure ⊎ WebState
unfolding write_auth
write_default_auth c disk password st = do
  h ← ok_or (c.hash password) hash_failed
  write_auth c disk
      (record { username = default_web_user; password_hash = h; allow_iscsi_exec = false }) st

abbrev is_there : Option Text → Bool
is_there none = false
is_there (some s) = true

unfoldable pub init_auth_file : Crates → Bool → WebState → Failure ⊎ WebState
unfolding write_default_auth
init_auth_file c disk st =
    if is_there st.auth_file then inr st else write_default_auth c disk default_web_password st

unfoldable pub force_reset_auth : Crates → Bool → Text → WebState → Failure ⊎ WebState
unfolding write_default_auth
force_reset_auth c disk password st = do
  refuse (ltb (length password) 8) too_short
  write_default_auth c disk password st

-- `login` up to the new token.
abbrev pub checked : Crates → Text → Text → WebState → LoginFail ⊎ Unit {0}
checked c user pass st = do
  cred ← ok_or (parsed c st.auth_file) auth_file_error
  refuse (not (text_eq user cred.username)) bad_credentials
  refuse (not (unwrap_or_false (c.verify pass cred.password_hash))) bad_credentials

abbrev pub admit :
    Text → Text → ℕ → ℕ → WebState → LoginFail ⊎ Unit {0} → (LoginFail ⊎ Text) × WebState
admit user tok now made st (inl e) = (inl e, st)
admit user tok now made st (inr u) = (
  inr tok,
  record st {
    sessions =
        insert tok (record { what = user; since = made })
          (retain now (session_secs + 3600) st.sessions);
  },
)

-- `tok` is the new UUID; `now` and `made` are the two readings of the clock.
unfoldable pub login :
    Crates → Text → Text → Text → ℕ → ℕ → WebState → (LoginFail ⊎ Text) × WebState
unfolding insert keep text_eq
login c user pass tok now made st = admit user tok now made st (checked c user pass st)

abbrev pub session_seen : Text → ℕ → WebState → Option (Timed Text) → Option Text × WebState
session_seen t now st none = (none, st)
session_seen t now st (some e) =
    if ltb (secs session_secs) (now - e.since)
    then (none, record st { sessions = remove t st.sessions })
    else (some e.what, st)

unfoldable pub session_username : Option Text → ℕ → WebState → Option Text × WebState
unfolding lookup keep
session_username none now st = (none, st)
session_username (some t) now st = session_seen t now st (lookup t st.sessions)

unfoldable pub logout_token : Text → WebState → WebState
unfolding keep
logout_token token st = record st { sessions = remove token st.sessions }

unfoldable pub change_password : Crates → Bool → Text → Text → WebState → Failure ⊎ WebState
unfolding write_auth
change_password c disk old_p new_p st = do
  refuse (ltb (length new_p) 8) too_short
  cred ← read_auth c st
  refuse (not (unwrap_or_false (c.verify old_p cred.password_hash))) wrong_password
  h ← ok_or (c.hash new_p) hash_failed
  write_auth c disk (record cred { password_hash = h }) st

abbrev exec_of : Failure ⊎ WebAuthFile → Bool
exec_of (inl e) = false
exec_of (inr cred) = cred.allow_iscsi_exec

unfoldable pub allow_iscsi_exec : Crates → WebState → Bool
allow_iscsi_exec c st = exec_of (read_auth c st)

unfoldable pub set_allow_iscsi_exec : Crates → Bool → Bool → WebState → Failure ⊎ WebState
unfolding write_auth
set_allow_iscsi_exec c disk allow st = do
  cred ← read_auth c st
  write_auth c disk (record cred { allow_iscsi_exec = allow }) st
