-- ===== src/Handlers/Outcome.antt =====
-- What a robot command answers, and what it does to the catalog, for any device.
use vtladm.Prelude.{ℕ, Text, ◌≡◌, refl, ◌∙◌, Bool, true, false, inl, inr, Bool-cases, if◌then◌else◌}
use vtladm.Errors.{VtlError, Result, ok, err}
use vtladm.Catalog.{Catalog, resolve_library_id}
use vtladm.Robot.{load_rows}
use vtladm.Settings.{Settings, robot_sync, auto_reconcile_pull}
use vtladm.Changer.{Device}
use vtladm.Changer.World.{World, M, ◌>>=◌, ◌>>◌, pure, attempt, when, continue}
use vtladm.Align.{
  try_post_op_auto_align, try_post_op_evacuate_only, auto_align_library_inner, align_quietly,
  evacuate_and_align,
}
use vtladm.Align.Keeps.{KeepsDb, keeps-try_post_op_evacuate_only, keeps-auto_align_library_inner}
use vtladm.Handlers.{load_tape, tell_kernel, follow_up}

-- An operation that cannot fail.
abbrev Succeeds : {K : Type 0} → M K (Unit {0}) → Type 0
Succeeds {K} m = (w : World K) → (m w).0 ≡ ok tt

abbrev pub Follows : {K : Type 0} → M K (Unit {0}) → Type 0
Follows {K} m = (w : World K) → ((m w).0 ≡ ok tt) × ((m w).1.db ≡ w.db)

module _ {K : Type 0} where
  Follows-when : (b : Bool) (m : M K (Unit {0})) → Follows m → Follows (when b m)
  Follows-when true m h w = h w
  Follows-when false m h w = (refl, refl)

  -- Two in a row.
  Follows-continue :
      (n : M K (Unit {0}))
      → Follows n
      → (r : Result (Unit {0})) (v : World K) → r ≡ ok tt
      → ((continue (λ _. n) r v).0 ≡ ok tt) × ((continue (λ _. n) r v).1.db ≡ v.db)
  Follows-continue n h (ok u) v e = h v
  Follows-continue n h (err x) v e = cc

  Follows-then : (m n : M K (Unit {0})) → Follows m → Follows n → Follows (m >> n)
  Follows-then m n hm hn w =
      let (a, d) = Follows-continue n hn (m w).0 (m w).1 (hm w).0 in (a, d ∙ (hm w).1)

module _ {K : Type 0} (dev : Device K) (s : Settings) where
  evacuate_only_succeeds :
      (lib : ℕ) (w : World K) → (try_post_op_evacuate_only dev s lib w).0 ≡ ok tt
  unfolding try_post_op_evacuate_only
  evacuate_only_succeeds lib w = elim (Bool-cases (robot_sync s)) [
    | inl on ↦ rw on refl
    | inr off ↦ rw off refl
  ]

  Follows-evacuate_only : (lib : ℕ) → Follows (try_post_op_evacuate_only dev s lib)
  Follows-evacuate_only lib w =
      (evacuate_only_succeeds lib w, keeps-try_post_op_evacuate_only dev s lib w)

  Follows-try : {A : Type 0} (m : M K A) → KeepsDb m → Follows (attempt m >>= λ _. pure tt)
  Follows-try m h w = (refl, h w)

  Follows-if : (b : Bool) (m : M K (Unit {0})) → Follows m → Follows (if b then m else pure tt)
  Follows-if true m h w = h w
  Follows-if false m h w = (refl, refl)

  Follows-align_quietly : (lib : ℕ) → Follows (align_quietly dev s lib)
  Follows-align_quietly lib =
      Follows-when (auto_reconcile_pull s)
        (attempt (auto_align_library_inner dev s lib false) >>= λ _. pure tt)
        (Follows-try (auto_align_library_inner dev s lib false)
          (keeps-auto_align_library_inner dev s lib))

  Follows-auto_align : (lib : ℕ) → Follows (try_post_op_auto_align dev s lib)
  unfolding try_post_op_auto_align
  Follows-auto_align lib = Follows-if (robot_sync s) (evacuate_and_align dev s lib) (
      Follows-then (try_post_op_evacuate_only dev s lib) (align_quietly dev s lib)
        (Follows-evacuate_only lib) (Follows-align_quietly lib))

  -- What comes after a robot command can fail no more, and leaves the catalog.
  pub Follows-follow_up :
      (lib : ℕ) (m : M K (Unit {0})) → KeepsDb m → Follows (follow_up dev s lib m)
  Follows-follow_up lib m h =
      Follows-then (tell_kernel dev s m) (when (robot_sync s) (try_post_op_auto_align dev s lib))
        (Follows-when (robot_sync s) (attempt m >>= λ _. pure tt) (Follows-try m h))
        (Follows-when (robot_sync s) (try_post_op_auto_align dev s lib) (Follows-auto_align lib))

  -- A load that the catalog refuses fails with that refusal, and neither the catalog nor the
  -- kernel has changed.
  pub load_tape_refuses :
      (library : Text) (slot drive lib : ℕ) (e : VtlError) (w : World K)
      → resolve_library_id w.db library ≡ ok lib
      → load_rows w.db lib slot drive ≡ err e
      → load_tape dev s library slot drive w ≡ (err e, w)
  unfolding load_tape
  load_tape_refuses library slot drive lib e w e1 e2 = rw (e1, e2) refl
