-- ===== src/Auth/Lasting.antt =====
-- How long a session of vtladm-rc/userspace/src/web_auth.rs lasts.
use vtladm.Prelude.{
  ℕ, Text, ◌+◌, ◌-◌, ◌≤◌, ◌≡◌, refl, ap, arith, Bool, true, false, ◌&&◌, not, List, [], ◌∷◌, Option,
  none, some, ltb, leb, if◌then◌else◌, text_eq, text_eq_refl, text_eq_sym, text_eq_sound, ◌⊎◌,
  lookup, inl, inr, Bool-cases, lookup-insert, all,
}
use vtladm.Auth.{
  Crates, LoginFail, WebState, Timed, login, admit, session_username, logout_token, retain, secs,
  session_secs, session_seen,
}
use vtladm.Auth.Captcha.{lookup-remove}
use vtladm.Auth.Sessions.{
  Event, captcha_made, captcha_tried, signed_in, looked_up, signed_out, password_changed, exec_set,
  step, run, lookup-retain, sessions-new_captcha, sessions-verify_captcha, sessions-change_password,
  sessions-set_allow_iscsi_exec,
}

-- A request that neither signs the token out nor issues it again, and comes within the day.
abbrev pub leaves : Text → ℕ → Event → Bool
leaves tok made (signed_in user pass t seen now) =
    not (text_eq t tok) && leb (seen - made) (secs session_secs)
leaves tok made (looked_up token now) = leb (now - made) (secs session_secs)
leaves tok made (signed_out t) = not (text_eq t tok)
leaves tok made e = true

module _ (c : Crates) (tok : Text) (entry : Timed Text) where
  abbrev Holds : WebState → Type 0
  Holds st = lookup tok st.sessions ≡ some entry

  admit-Holds :
      (user t : Text) (seen now : ℕ) (st : WebState) (r : LoginFail ⊎ Unit {0})
      → (not (text_eq t tok) && leb (seen - entry.since) (secs session_secs)) ≡ true
      → Holds st
      → Holds (admit user t seen now st r).1
  admit-Holds user t seen now st (inl e) quiet h = h
  admit-Holds user t seen now st (inr u) quiet h =
      let other : text_eq t tok ≡ false = ground arith in
      rw
        (
          lookup-insert t tok (record { what = user; since = now })
              (retain seen (session_secs + 3600) st.sessions),
          other,
        )
        (lookup-retain tok entry seen (session_secs + 3600) st.sessions h
          (ground (arith, quiet, other)))

  -- The entry is too young to be the one that is removed.
  same_or_other :
      (t : Text) (now : ℕ) (st : WebState) (e : Timed Text)
      → lookup t st.sessions ≡ some e
      → leb (now - entry.since) (secs session_secs) ≡ true
      → Holds st
      → ltb (secs session_secs) (now - e.since) ≡ true
      → (if text_eq tok t then none else lookup tok st.sessions) ≡ some entry
  same_or_other t now st e found quiet h old = elim (Bool-cases (text_eq tok t)) [
    | inl same ↦
        let one : tok ≡ t = text_eq_sound tok t same in
        let e_entry : e ≡ entry = cc (one, h, found) in
        absurd (ground (arith, old, quiet, ap (λ (x : Timed Text). x.since) e_entry))
    | inr other ↦ rw other h
  ]

  looked_up-Holds :
      (t : Text) (now : ℕ) (st : WebState) (o : Option (Timed Text))
      → lookup t st.sessions ≡ o
      → leb (now - entry.since) (secs session_secs) ≡ true
      → Holds st
      → Holds (session_seen t now st o).1
  looked_up-Holds t now st none found quiet h = h
  looked_up-Holds t now st (some e) found quiet h =
      elim (Bool-cases (ltb (secs session_secs) (now - e.since))) [
        | inl old ↦
            rw (old, lookup-remove t tok st.sessions) (same_or_other t now st e found quiet h old)
        | inr young ↦ rw young h
      ]

  pub step-Holds :
      (e : Event) (st : WebState) → leaves tok entry.since e ≡ true → Holds st → Holds (step c e st)
  unfolding login logout_token session_username
  step-Holds (captcha_made d now made) st quiet h = rw (sessions-new_captcha d now made st) h
  step-Holds (captcha_tried id text now) st quiet h = rw (sessions-verify_captcha id text now st) h
  step-Holds (signed_in user pass t seen now) st quiet h = admit-Holds user t seen now st _ quiet h
  step-Holds (looked_up none now) st quiet h = h
  step-Holds (looked_up (some t) now) st quiet h = looked_up-Holds t now st _ refl quiet h
  step-Holds (signed_out t) st quiet h =
      rw (lookup-remove t tok st.sessions, text_eq_sym tok t) (ground (arith, quiet, h))
  step-Holds (password_changed disk old_p new_p) st quiet h =
      rw (sessions-change_password c disk old_p new_p st) h
  step-Holds (exec_set disk allow) st quiet h = rw (sessions-set_allow_iscsi_exec c disk allow st) h

  pub run-Holds :
      (es : List Event) (st : WebState)
      → all (leaves tok entry.since) es ≡ true
      → Holds st
      → Holds (run c st es)
  unfolding run all
  run-Holds [] st quiet h = h
  run-Holds (e ∷ es) st quiet h =
      step-Holds e (run c st es) (ground (arith, quiet)) (run-Holds es st (ground (arith, quiet)) h)

admitted :
    (c : Crates) (user pass tok : Text) (seen made : ℕ) (st : WebState) (r : LoginFail ⊎ Unit {0})
    → (admit user tok seen made st r).0 ≡ inr tok
    → lookup tok (admit user tok seen made st r).1.sessions
      ≡ some (record { what = user; since = made })
admitted c user pass tok seen made st (inl e) done = cc done
admitted c user pass tok seen made st (inr u) done =
    rw
      (
        lookup-insert tok tok (record { what = user; since = made })
            (retain seen (session_secs + 3600) st.sessions),
        text_eq_refl tok,
      )
      refl

-- Whoever has signed in is known by the token for the day that follows, whatever requests are
-- served meanwhile, if none of them signs the token out or issues it a second time.
pub session_lasts :
    (c : Crates) (user pass tok : Text) (seen made later : ℕ) (st : WebState) (es : List Event)
    → (login c user pass tok seen made st).0 ≡ inr tok
    → all (leaves tok made) es ≡ true
    → later - made ≤ secs session_secs
    → (session_username (some tok) later (run c (login c user pass tok seen made st).1 es)).0
      ≡ some user
unfolding session_username
session_lasts c user pass tok seen made later st es done quiet soon =
    let entry : Timed Text = record { what = user; since = made } in
    let issued : lookup tok (login c user pass tok seen made st).1.sessions ≡ some entry =
      unfold login in admitted c user pass tok seen made st _ done in
    rw (run-Holds c tok entry es (login c user pass tok seen made st).1 quiet issued)
      (ground (arith, soon))
