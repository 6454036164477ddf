-- ===== src/Auth/Kept.antt =====
-- How long a captcha of vtladm-rc/userspace/src/web_auth.rs is taken, and which answers it takes.
use vtladm.Prelude.{
  ℕ, Text, ◌+◌, ◌-◌, ◌≤◌, ◌≡◌, ◌↔◌, refl, arith, Bool, true, false, ◌&&◌, not, List, [], ◌∷◌,
  Option, none, some, leb, text_eq, text_eq_refl, text_eq_sym, lookup, lookup-insert, ℤ, pos,
  decimal, parse_i32, parse_i32-decimal, all, all-decimal, inl, inr, ◌⊎◌,
}
use vtladm.Settings.{trim}
use vtladm.Catalog.Bays.{is_some}
use vtladm.Auth.{
  Crates, LoginFail, WebState, Timed, login, admit, session_username, session_seen, logout_token,
  change_password, set_allow_iscsi_exec, retain, secs, captcha_secs,
}
use vtladm.Auth.Challenge.{
  Draw, answer, left, right, question, new_captcha, verify_captcha, answered, judged, ℤ_eq,
}
use vtladm.Auth.Sessions.{
  Event, captcha_made, captcha_tried, signed_in, looked_up, signed_out, password_changed, exec_set,
  step, run, or_as_before, lookup-retain,
}
use vtladm.Auth.Captcha.{
  lookup-remove, value, answer-value, operands, value_small, ℤ_eq_iff, trim-digits,
}

-- A request that gives no number for the captcha, and draws no captcha with its id nor any captcha
-- more than five minutes after it was made.
abbrev pub spares : Text → ℕ → Event → Bool
spares id made (captcha_made d now later) =
    not (text_eq d.id id) && leb (now - made) (secs captcha_secs)
spares id made (captcha_tried i text now) = not (text_eq i id && is_some (parse_i32 (trim text)))
spares id made e = true

-- Only the requests for captchas touch them.
captcha-admit :
    (user tok : Text) (seen now : ℕ) (st : WebState) (r : LoginFail ⊎ Unit {0})
    → (admit user tok seen now st r).1.captcha ≡ st.captcha
captcha-admit user tok seen now st (inl e) = refl
captcha-admit user tok seen now st (inr u) = refl

captcha-session_seen :
    (t : Text) (now : ℕ) (st : WebState) (o : Option (Timed Text))
    → (session_seen t now st o).1.captcha ≡ st.captcha
captcha-session_seen t now st none = refl
captcha-session_seen t now st (some e) = ground arith

captcha-change_password :
    (c : Crates) (disk : Bool) (old_p new_p : Text) (st : WebState)
    → (or_as_before st (change_password c disk old_p new_p st)).captcha ≡ st.captcha
unfolding change_password
captcha-change_password c disk old_p new_p st = ground arith

captcha-set_allow_iscsi_exec :
    (c : Crates) (disk allow : Bool) (st : WebState)
    → (or_as_before st (set_allow_iscsi_exec c disk allow st)).captcha ≡ st.captcha
unfolding set_allow_iscsi_exec
captcha-set_allow_iscsi_exec c disk allow st = ground arith

module _ (c : Crates) (id : Text) (entry : Timed ℤ) where
  abbrev Stays : WebState → Type 0
  Stays st = lookup id st.captcha ≡ some entry

  made-Stays :
      (d : Draw) (now made : ℕ) (st : WebState)
      → spares id entry.since (captcha_made d now made) ≡ true
      → Stays st
      → Stays (new_captcha d now made st).1
  unfolding new_captcha
  made-Stays d now made st spared h =
      let other : text_eq d.id id ≡ false = ground arith in
      let fresh : Timed ℤ = record { what = answer d.op (left d) (right d); since = made } in
      rw (lookup-insert d.id id fresh (retain now (captcha_secs + 60) st.captcha), other)
        (lookup-retain id entry now (captcha_secs + 60) st.captcha h
          (ground (arith, spared, other)))

  tried-Stays :
      (i : Text) (now : ℕ) (st : WebState) (o : Option ℤ)
      → not (text_eq i id && is_some o) ≡ true
      → Stays st
      → Stays (answered i now st o).1
  tried-Stays i now st none spared h = h
  tried-Stays i now st (some n) spared h =
      rw (lookup-remove i id st.captcha, text_eq_sym id i) (ground (arith, spared, h))

  step-Stays :
      (e : Event) (st : WebState) → spares id entry.since e ≡ true → Stays st → Stays (step c e st)
  unfolding verify_captcha login logout_token session_username
  step-Stays (captcha_made d now made) st spared h = made-Stays d now made st spared h
  step-Stays (captcha_tried i text now) st spared h = tried-Stays i now st _ spared h
  step-Stays (signed_in user pass t seen now) st spared h =
      rw (captcha-admit user t seen now st _) h
  step-Stays (looked_up none now) st spared h = h
  step-Stays (looked_up (some t) now) st spared h = rw (captcha-session_seen t now st _) h
  step-Stays (signed_out t) st spared h = h
  step-Stays (password_changed disk old_p new_p) st spared h =
      rw (captcha-change_password c disk old_p new_p st) h
  step-Stays (exec_set disk allow) st spared h = rw (captcha-set_allow_iscsi_exec c disk allow st) h

  run-Stays :
      (es : List Event) (st : WebState)
      → all (spares id entry.since) es ≡ true
      → Stays st
      → Stays (run c st es)
  unfolding run all
  run-Stays [] st spared h = h
  run-Stays (e ∷ es) st spared h =
      step-Stays e (run c st es) (ground (arith, spared))
        (run-Stays es st (ground (arith, spared)) h)

-- The entry of a captcha.
abbrev entry_of : Draw → ℕ → Timed ℤ
entry_of d made = record { what = pos (value d.op (left d) (right d)); since = made }

made-entry :
    (d : Draw) (now made : ℕ) (st : WebState)
    → lookup d.id (new_captcha d now made st).1.captcha ≡ some (entry_of d made)
unfolding new_captcha
made-entry d now made st =
    let (_, larger, _) = operands d in
    rw
      (
        lookup-insert d.id d.id (record { what = answer d.op (left d) (right d); since = made })
            (retain now (captcha_secs + 60) st.captcha),
        text_eq_refl d.id,
        answer-value d.op (left d) (right d) larger,
      )
      refl

-- The verdict on any text.
decided :
    (id : Text) (later made : ℕ) (v : ℤ) (st : WebState) (read : Option ℤ)
    → lookup id st.captcha ≡ some (record { what = v; since = made })
    → later - made ≤ secs captcha_secs
    → ((answered id later st read).0 ≡ true) ↔ (read ≡ some v)
decided id later made v st none found soon = (λ h. cc, λ e. cc)
decided id later made v st (some ans) found soon =
    let (to, from) = ℤ_eq_iff ans v in
    let verdict : judged ans later (lookup id st.captcha) ≡ ℤ_eq ans v =
      rw found (ground (arith, soon)) in
    rw verdict (λ h. rw (to h) refl, λ e. from (cc e))

-- For the five minutes after it was made, a captcha, which shows two numbers from 1 to 9, the
-- larger one first, takes the number that the arithmetic of its question gives, as that number
-- prints, and takes a text exactly when, trimmed, it reads as that number. So it does whatever
-- requests are served meanwhile, if none of them gives a number for this captcha, draws another
-- with its id, or draws one more than five minutes after it.
pub new_captcha_takes :
    (c : Crates) (d : Draw) (now made later : ℕ) (st : WebState) (es : List Event) (text : Text)
    → all (spares d.id made) es ≡ true
    → later - made ≤ secs captcha_secs
    → (a : ℕ) × (b : ℕ) × ((new_captcha d now made st).0 ≡ (d.id, question d.op a b))
      × (1 ≤ b)
      × (b ≤ a)
      × (a ≤ 9)
      × ((verify_captcha d.id
            (decimal (value d.op a b))
            later
            (run c (new_captcha d now made st).1 es)).0
          ≡ true)
      × (((verify_captcha d.id text later (run c (new_captcha d now made st).1 es)).0 ≡ true)
          ↔ (parse_i32 (trim text) ≡ some (pos (value d.op a b))))
unfolding verify_captcha
new_captcha_takes c d now made later st es text spared soon =
    let (one, larger, nine) = operands d in
    let v : ℕ = value d.op (left d) (right d) in
    let kept =
      run-Stays c d.id (entry_of d made) es (new_captcha d now made st).1 spared
        (made-entry d now made st) in
    let after : WebState = run c (new_captcha d now made st).1 es in
    let reads : parse_i32 (trim (decimal v)) ≡ some (pos v) =
      rw (trim-digits (decimal v) (all-decimal v))
        (parse_i32-decimal v (ground (arith, value_small d.op (left d) (right d)))) in
    (
      left d,
      right d,
      unfold new_captcha in refl,
      one,
      larger,
      nine,
      (decided d.id later made (pos v) after _ kept soon).1 reads,
      decided d.id later made (pos v) after _ kept soon,
    )
