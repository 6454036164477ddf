-- ===== src/Auth/Password.antt =====
-- The credentials of vtladm-rc/userspace/src/web_auth.rs: signing in and changing the password.
use vtladm.Prelude.{
  ℕ, Text, ◌≤◌, ◌≡◌, ◌↔◌, refl, sym, subst, ap, arith, Bool, true, Option, none, some, ltb, length,
  text_eq_refl, text_eq_sound, ◌⊎◌, inl, inr, Option-cases, Bool-cases,
}
use vtladm.Auth.{
  Crates, WebState, WebAuthFile, LoginFail, login, checked, admit, change_password,
  allow_iscsi_exec, write_auth, parsed, unwrap_or_false,
}

-- What bcrypt and serde_json document: a password verifies against its own hash, and a printed value
-- parses back.
pub record AreLawful (c : Crates) : Type 0 where
  pub verify_own : (p h : Text) → c.hash p ≡ some h → c.verify p h ≡ some true
  pub parse_printed :
      (cred : WebAuthFile) (body : Text)
      → c.to_string_pretty cred ≡ some body
      → c.from_str body ≡ some cred

-- The file names the user and holds a hash that the password verifies against.
pub record Knows (c : Crates) (user pass : Text) (st : WebState) : Type 0 where
  pub cred : WebAuthFile
  pub reads : parsed c st.auth_file ≡ some cred
  pub name : user ≡ cred.username
  pub fits : c.verify pass cred.password_hash ≡ some true

true_of : (o : Option Bool) → unwrap_or_false o ≡ true → o ≡ some true
true_of none h = cc h
true_of (some b) h = cc h

checked-Knows :
    (c : Crates) (user pass : Text) (st : WebState)
    → (checked c user pass st ≡ inr tt) ↔ Knows c user pass st
checked-Knows c user pass st = (to, from)
  where
    to : checked c user pass st ≡ inr tt → Knows c user pass st
    to done = elim (Option-cases (parsed c st.auth_file)) [
      | inl none_ ↦ cc (none_, done)
      | inr (cred, reads) ↦ record {
        cred = cred;
        reads = reads;
        name = text_eq_sound user cred.username (ground (arith, reads, done));
        fits = true_of (c.verify pass cred.password_hash) (ground (arith, reads, done));
      }
    ]

    from : Knows c user pass st → checked c user pass st ≡ inr tt
    from k = rw (k.reads, k.name, text_eq_refl k.cred.username, k.fits) refl

admit_iff :
    (c : Crates) (user tok : Text) (now made : ℕ) (st : WebState) (r : LoginFail ⊎ Unit {0})
    → ((admit user tok now made st r).0 ≡ inr tok) ↔ (r ≡ inr tt)
admit_iff c user tok now made st (inl e) = (λ h. cc h, λ h. cc h)
admit_iff c user tok now made st (inr u) = (λ h. refl, λ h. refl)

-- Signing in succeeds exactly when the file names the user and the password verifies against the
-- hash that the file holds.
pub login_iff :
    (c : Crates) (user pass tok : Text) (now made : ℕ) (st : WebState)
    → ((login c user pass tok now made st).0 ≡ inr tok) ↔ Knows c user pass st
unfolding login
login_iff c user pass tok now made st =
    let (a, b) = admit_iff c user tok now made st (checked c user pass st) in
    let (to, from) = checked-Knows c user pass st in (λ h. to (a h), λ k. b (from k))

-- What was written is read back.
written :
    (c : Crates) (disk : Bool) (cred : WebAuthFile) (st : WebState) {after : WebState}
    → AreLawful c
    → write_auth c disk cred st ≡ inr after
    → (parsed c after.auth_file ≡ some cred) × (after.sessions ≡ st.sessions)
unfolding write_auth
written c disk cred st {after} laws done = elim (Option-cases (c.to_string_pretty cred)) [
  | inl none_ ↦ ground (arith, none_, done)
  | inr (body, prints) ↦ elim (Bool-cases disk) [
    | inl works ↦
        let e : record st { auth_file = some body } ≡ after = ground (arith, prints, works, done) in
        (
          subst (λ (a : WebState). parsed c a.auth_file ≡ some cred) e
              (laws.parse_printed cred body prints),
          sym (ap (λ (a : WebState). a.sessions) e),
        )
    | inr fails ↦ ground (arith, prints, fails, done)
  ]
]

-- A change that succeeds was made by who knew the old password, and writes a hash of the new one.
changed :
    (c : Crates) (disk : Bool) (old_p new_p : Text) (st : WebState) {after : WebState}
    (cred : WebAuthFile)
    → AreLawful c
    → parsed c st.auth_file ≡ some cred
    → change_password c disk old_p new_p st ≡ inr after
    → (h : Text) × (c.hash new_p ≡ some h)
      × (parsed c after.auth_file ≡ some (record cred { password_hash = h }))
      × (after.sessions ≡ st.sessions)
      × (c.verify old_p cred.password_hash ≡ some true)
      × (8 ≤ length new_p)
unfolding change_password
changed c disk old_p new_p st {after} cred laws reads done =
    elim (Bool-cases (ltb (length new_p) 8)) [
      | inl short ↦ ground (arith, short, done)
      | inr long ↦ elim (Bool-cases (unwrap_or_false (c.verify old_p cred.password_hash))) [
        | inr bad ↦ ground (arith, long, reads, bad, done)
        | inl good ↦ elim (Option-cases (c.hash new_p)) [
          | inl none_ ↦ ground (arith, long, reads, good, none_, done)
          | inr (h, hashes) ↦
              let w : write_auth c disk (record cred { password_hash = h }) st ≡ inr after =
                ground (arith, long, reads, good, hashes, done) in
              let (read_back, same) =
                written c disk (record cred { password_hash = h }) st laws w in
              (h, hashes, read_back, same, true_of _ good, ground (arith, long))
        ]
      ]
    ]

-- The hash in the file is what a password is verified against.
fits_hash :
    (c : Crates) (user pass h : Text) (st : WebState) (cred : WebAuthFile)
    → parsed c st.auth_file ≡ some cred
    → cred.password_hash ≡ h
    → Knows c user pass st
    → c.verify pass h ≡ some true
fits_hash c user pass h st cred reads same k =
    let one : k.cred ≡ cred = cc (reads, k.reads) in rw (← same, ← one) k.fits

-- After a password was changed, which takes a new one of eight bytes or more from who knows the old
-- one, the file holds a hash of the new one: the user signs in with the new password, and with
-- another exactly when bcrypt verifies it against that hash. The sessions and the switch for iSCSI
-- stay as they were.
pub change_password_replaces :
    (c : Crates) (disk : Bool) (user old_p new_p other tok : Text) (now made : ℕ) (st : WebState)
    (cred : WebAuthFile) {after : WebState}
    → AreLawful c
    → parsed c st.auth_file ≡ some cred
    → user ≡ cred.username
    → change_password c disk old_p new_p st ≡ inr after
    → (h : Text) × (c.hash new_p ≡ some h)
      × ((login c user old_p tok now made st).0 ≡ inr tok)
      × (8 ≤ length new_p)
      × ((login c user new_p tok now made after).0 ≡ inr tok)
      × (((login c user other tok now made after).0 ≡ inr tok) ↔ (c.verify other h ≡ some true))
      × (after.sessions ≡ st.sessions)
      × (allow_iscsi_exec c after ≡ allow_iscsi_exec c st)
unfolding allow_iscsi_exec
change_password_replaces c disk user old_p new_p other tok now made st cred {after} laws reads name
      done =
    let (h, hashes, reads_new, same, knew, long) =
      changed c disk old_p new_p st cred laws reads done in
    let (to, from) = login_iff c user other tok now made after in
    let knows : (p : Text) → c.verify p h ≡ some true → Knows c user p after = λ p fits. record {
      cred = record cred { password_hash = h };
      reads = reads_new;
      name = name;
      fits = fits;
    } in
    (
      h,
      hashes,
      (login_iff c user old_p tok now made st).1
          (record { cred = cred; reads = reads; name = name; fits = knew }),
      long,
      (login_iff c user new_p tok now made after).1 (knows new_p (laws.verify_own new_p h hashes)),
      (
        λ signed. fits_hash c user other h after _ reads_new refl (to signed),
        λ fits. from (knows other fits),
      ),
      same,
      rw (reads_new, reads) refl,
    )
