-- ===== src/Auth/Trace.antt =====
-- Who is signed in, over the requests that vtladm-rc/userspace/src/web_auth.rs has served.
use vtladm.Prelude.{
  ℕ, Text, ◌-◌, ◌≤◌, ◌≡◌, refl, arith, Bool, false, List, [], ◌∷◌, Option, none, some, ltb, text_eq,
  text_eq_sym, ◌∙◌, ◌⊎◌, subst, Dict, lookup, keep, inl, inr, Bool-cases, Option-cases,
}
use vtladm.Auth.{
  Crates, LoginFail, WebState, Timed, new, login, checked, admit, session_username, logout_token,
  remove, secs, session_secs,
}
use vtladm.Auth.Sessions.{
  Event, captcha_made, captcha_tried, signed_in, looked_up, signed_out, password_changed, exec_set,
  run, Each, Each-keep, Each-insert, Each-lookup, sessions-new_captcha, sessions-verify_captcha,
  sessions-change_password, sessions-set_allow_iscsi_exec,
}

abbrev pub ends : Text → Event → Bool
ends tok (signed_out t) = text_eq t tok
ends tok e = false

-- The user signed in at `t`, with the token, and the token was not signed out since.
pub data Granted (c : Crates) (start : WebState) (tok user : Text) (t : ℕ)
    : List Event → Type 0 where
  here :
      (pass : Text) (seen : ℕ) (es : List Event)
      → (login c user pass tok seen t (run c start es)).0 ≡ inr tok
      → Granted c start tok user t (signed_in user pass tok seen t ∷ es)
  before :
      (e : Event) {es : List Event}
      → ends tok e ≡ false
      → Granted c start tok user t es
      → Granted c start tok user t (e ∷ es)

module _ (c : Crates) (start : WebState) where
  abbrev Was : List Event → Text → Timed Text → Type 0
  Was es tok e = Granted c start tok e.what e.since es

  abbrev Since : List Event → Dict (Timed Text) → Type 0
  Since es = Each (Was es)

  later :
      (e : Event) (es : List Event) (m : Dict (Timed Text))
      → ((tok : Text) → ends tok e ≡ false)
      → Since es m
      → Since (e ∷ es) m
  later e es [] quiet h = h
  later e es ((k, v) ∷ m) quiet h = (before e (quiet k) h.0, later e es m quiet h.1)

  -- Signing out takes the entries that it ends.
  signed_out-Since :
      (t : Text) (es : List Event) (m : Dict (Timed Text))
      → Since es m
      → Since (signed_out t ∷ es) (remove t m)
  unfolding keep
  signed_out-Since t es [] h = h
  signed_out-Since t es ((k, v) ∷ m) h = elim (Bool-cases (text_eq k t)) [
    | inl same ↦ rw same (signed_out-Since t es m h.1)
    | inr other ↦
        rw other (before (signed_out t) (text_eq_sym t k ∙ other) h.0, signed_out-Since t es m h.1)
  ]

  signed_in-Since :
      (user pass tok : Text) (seen made : ℕ) (es : List Event) (r : LoginFail ⊎ Unit {0})
      → checked c user pass (run c start es) ≡ r
      → Since es (run c start es).sessions
      → Since
          (signed_in user pass tok seen made ∷ es)
          (admit user tok seen made (run c start es) r).1.sessions
  signed_in-Since user pass tok seen made es (inl e) tested h =
      later (signed_in user pass tok seen made) es _ (λ t. refl) h
  signed_in-Since user pass tok seen made es (inr u) tested h =
      Each-insert (Was (signed_in user pass tok seen made ∷ es)) tok _ _
        (here pass seen es (unfold login in rw tested refl))
        (Each-keep _ _ _ (later (signed_in user pass tok seen made) es _ (λ t. refl) h))

  looked_up-Since :
      (token : Option Text) (now : ℕ) (es : List Event) (st : WebState)
      → Since es st.sessions
      → Since es (session_username token now st).1.sessions
  unfolding session_username
  looked_up-Since none now es st h = h
  looked_up-Since (some t) now es st h = elim (Option-cases (lookup t st.sessions)) [
    | inl out ↦ rw out h
    | inr (e, found) ↦ rw found (elim (Bool-cases (ltb (secs session_secs) (now - e.since))) [
      | inl old ↦ rw old (Each-keep _ _ _ h)
      | inr young ↦ rw young h
    ])
  ]

  run-Since : (es : List Event) → Since [] start.sessions → Since es (run c start es).sessions
  unfolding run login logout_token
  run-Since [] h = h
  run-Since (captcha_made d now made ∷ es) h =
      rw (sessions-new_captcha d now made (run c start es))
        (later (captcha_made d now made) es _ (λ t. refl) (run-Since es h))
  run-Since (captcha_tried id text now ∷ es) h =
      rw (sessions-verify_captcha id text now (run c start es))
        (later (captcha_tried id text now) es _ (λ t. refl) (run-Since es h))
  run-Since (signed_in user pass tok seen made ∷ es) h =
      signed_in-Since user pass tok seen made es _ refl (run-Since es h)
  run-Since (looked_up token now ∷ es) h =
      later (looked_up token now) es _ (λ t. refl)
        (looked_up-Since token now es (run c start es) (run-Since es h))
  run-Since (signed_out t ∷ es) h = signed_out-Since t es _ (run-Since es h)
  run-Since (password_changed disk old_p new_p ∷ es) h =
      rw (sessions-change_password c disk old_p new_p (run c start es))
        (later (password_changed disk old_p new_p) es _ (λ t. refl) (run-Since es h))
  run-Since (exec_set disk allow ∷ es) h =
      rw (sessions-set_allow_iscsi_exec c disk allow (run c start es))
        (later (exec_set disk allow) es _ (λ t. refl) (run-Since es h))

-- Whoever holds a session signed in with that name and the correct password, under this token, at
-- most a day before, and the token was not signed out since.
pub session_was_granted :
    (c : Crates) (file : Option Text) (es : List Event) (tok user : Text) (now : ℕ)
    → (session_username (some tok) now (run c (new file) es)).0 ≡ some user
    → (t : ℕ) × Granted c (new file) tok user t es × (now - t ≤ secs session_secs)
unfolding session_username
session_was_granted c file es tok user now seen =
    let st : WebState = run c (new file) es in
    elim (Option-cases (lookup tok st.sessions)) [
      | inl out ↦ cc (out, seen)
      | inr (e, found) ↦ elim (Bool-cases (ltb (secs session_secs) (now - e.since))) [
        | inl old ↦ ground (arith, old, found, seen)
        | inr young ↦
            let same : e.what ≡ user = ground (arith, young, found, seen) in
            let was : Granted c (new file) tok e.what e.since es =
              Each-lookup (Was c (new file) es) tok e st.sessions found
                (run-Since c (new file) es (unfold new in tt)) in
            (
              e.since,
              subst (λ u. Granted c (new file) tok u e.since es) same was,
              ground (arith, young),
            )
      ]
    ]
