-- ===== src/Auth/Sessions.antt =====
-- The session table of vtladm-rc/userspace/src/web_auth.rs over sequences of requests.
use vtladm.Prelude.{
  ℕ, Text, ◌≡◌, refl, arith, Bool, true, List, [], ◌∷◌, Option, some, text_eq, text_eq_sound, Dict,
  lookup, insert, keep, inl, inr, ◌⊎◌, Bool-cases,
}
use vtladm.Auth.{
  Crates, WebState, Timed, Failure, login, session_username, logout_token, change_password,
  set_allow_iscsi_exec, retain, younger,
}
use vtladm.Auth.Challenge.{Draw, new_captcha, verify_captcha}

-- A request to the state, with what it draws and when it comes.
pub data Event : Type 0 where
  captcha_made : Draw → ℕ → ℕ → Event
  captcha_tried : Text → Text → ℕ → Event
  signed_in : Text → Text → Text → ℕ → ℕ → Event
  looked_up : Option Text → ℕ → Event
  signed_out : Text → Event
  password_changed : Bool → Text → Text → Event
  exec_set : Bool → Bool → Event

abbrev pub or_as_before : WebState → Failure ⊎ WebState → WebState
or_as_before st (inl e) = st
or_as_before st (inr after) = after

abbrev pub step : Crates → Event → WebState → WebState
step c (captcha_made d now made) st = (new_captcha d now made st).1
step c (captcha_tried id text now) st = (verify_captcha id text now st).1
step c (signed_in user pass tok now made) st = (login c user pass tok now made st).1
step c (looked_up token now) st = (session_username token now st).1
step c (signed_out tok) st = logout_token tok st
step c (password_changed disk old_p new_p) st =
    or_as_before st (change_password c disk old_p new_p st)
step c (exec_set disk allow) st = or_as_before st (set_allow_iscsi_exec c disk allow st)

-- The newest request stands first.
unfoldable pub run : Crates → WebState → List Event → WebState
run c st [] = st
run c st (e ∷ es) = step c e (run c st es)

-- Only these requests touch the sessions.
pub sessions-new_captcha :
    (d : Draw) (now made : ℕ) (st : WebState) → (new_captcha d now made st).1.sessions ≡ st.sessions
unfolding new_captcha
sessions-new_captcha d now made st = refl

pub sessions-verify_captcha :
    (id text : Text) (now : ℕ) (st : WebState)
    → (verify_captcha id text now st).1.sessions ≡ st.sessions
unfolding verify_captcha
sessions-verify_captcha id text now st = ground arith

pub sessions-change_password :
    (c : Crates) (disk : Bool) (old_p new_p : Text) (st : WebState)
    → (or_as_before st (change_password c disk old_p new_p st)).sessions ≡ st.sessions
unfolding change_password
sessions-change_password c disk old_p new_p st = ground arith

pub sessions-set_allow_iscsi_exec :
    (c : Crates) (disk allow : Bool) (st : WebState)
    → (or_as_before st (set_allow_iscsi_exec c disk allow st)).sessions ≡ st.sessions
unfolding set_allow_iscsi_exec
sessions-set_allow_iscsi_exec c disk allow st = ground arith

-- What holds of all entries.
module _ {V : Type 0} (P : Text → V → Type 0) where
  abbrev pub Each : Dict V → Type 0
  Each [] = Unit
  Each ((k, v) ∷ m) = P k v × Each m

  pub Each-keep : (test : Text × V → Bool) (m : Dict V) → Each m → Each (keep test m)
  unfolding keep
  Each-keep test [] h = h
  Each-keep test ((k, v) ∷ m) h = elim (Bool-cases (test (k, v))) [
    | inl yes_ ↦ rw yes_ (h.0, Each-keep test m h.1)
    | inr no_ ↦ rw no_ (Each-keep test m h.1)
  ]

  pub Each-insert : (k : Text) (v : V) (m : Dict V) → P k v → Each m → Each (insert k v m)
  unfolding insert
  Each-insert k v [] p h = (p, h)
  Each-insert k v ((j, w) ∷ m) p h = elim (Bool-cases (text_eq j k)) [
    | inl same ↦ rw same (p, h.1)
    | inr other ↦ rw other (h.0, Each-insert k v m p h.1)
  ]

  pub Each-lookup : (k : Text) (v : V) (m : Dict V) → lookup k m ≡ some v → Each m → P k v
  unfolding lookup
  Each-lookup k v [] found h = cc found
  Each-lookup k v ((j, w) ∷ m) found h = elim (Bool-cases (text_eq j k)) [
    | inl same ↦ ground (arith, found, h, same, text_eq_sound j k same)
    | inr other ↦ Each-lookup k v m (ground (arith, found, other)) h.1
  ]

-- A young entry stays.
pub lookup-retain :
    {V : Type 0} (k : Text) (e : Timed V) (now limit : ℕ) (m : Dict (Timed V))
    → lookup k m ≡ some e
    → younger now limit (k, e) ≡ true
    → lookup k (retain now limit m) ≡ some e
unfolding lookup keep
lookup-retain k e now limit [] found young = found
lookup-retain k e now limit ((j, w) ∷ m) found young = elim (Bool-cases (text_eq j k)) [
  | inl same ↦ ground (arith, found, same, young)
  | inr other ↦ ground (arith, lookup-retain k e now limit m, found, other, young)
]
