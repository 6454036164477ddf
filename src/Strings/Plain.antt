-- ===== src/Strings/Plain.antt =====
-- How splitting, joining and trimming act on texts without the bytes that they look for.
use vtladm.Prelude.{
  ℕ, Text, ◌≡◌, refl, arith, Bool, true, false, ◌&&◌, not, List, [], ◌∷◌, ◌++◌, some, ◌==◌, leb,
  all, ==_refl,
}
use vtladm.Settings.{trim, trim_start, trim_end, skip_space, is_space}
use vtladm.Strings.{split, split_once, join}

abbrev pub not_space : ℕ → Bool
not_space c = leb c 127 && not (is_space c)

skip_space-plain : (s : Text) → all not_space s ≡ true → skip_space 0 s ≡ s
unfolding skip_space all
skip_space-plain [] h = refl
skip_space-plain (c ∷ s) h = ground arith

trim_end-plain : (s : Text) → all not_space s ≡ true → trim_end s ≡ s
unfolding trim_end trim_start all
trim_end-plain [] h = refl
trim_end-plain (c ∷ s) h = rw (skip_space-plain (c ∷ s) h, trim_end-plain s (ground arith)) refl

pub trim-plain : (s : Text) → all not_space s ≡ true → trim s ≡ s
unfolding trim trim_start
trim-plain s h = rw (skip_space-plain s h) (trim_end-plain s h)

-- What holds of every digit holds of every byte of a text of digits.
pub all-impl :
    (p q : ℕ → Bool)
    → ((c : ℕ) → p c ≡ true → q c ≡ true)
    → (s : Text) → all p s ≡ true
    → all q s ≡ true
unfolding all
all-impl p q h [] t = refl
all-impl p q h (c ∷ s) t =
    let pc : p c ≡ true = ground (arith, t) in rw (h c pc) (all-impl p q h s (ground (arith, t)))

pub all-append :
    (p : ℕ → Bool) (s t : Text) → all p s ≡ true → all p t ≡ true → all p (s ++ t) ≡ true
unfolding all
all-append p [] t h k = k
all-append p (c ∷ s) t h k = ground (arith, all-append p s t, h, k)

abbrev pub is_not : ℕ → ℕ → Bool
is_not sep c = not (c == sep)

-- A piece without the separator is split off whole.
pub split-append :
    (sep : ℕ) (p r : Text)
    → all (is_not sep) p ≡ true
    → split sep (p ++ (sep ∷ r)) ≡ p ∷ split sep r
unfolding split all
split-append sep [] r h = rw (==_refl sep) refl
split-append sep (c ∷ p) r h =
    let e : (c == sep) ≡ false = ground (arith, h) in
    rw (e, split-append sep p r (ground (arith, h))) refl

pub split-plain : (sep : ℕ) (p : Text) → all (is_not sep) p ≡ true → split sep p ≡ p ∷ []
unfolding split all
split-plain sep [] h = refl
split-plain sep (c ∷ p) h =
    let e : (c == sep) ≡ false = ground (arith, h) in
    rw (e, split-plain sep p (ground (arith, h))) refl

pub split_once-append :
    (sep : ℕ) (p r : Text)
    → all (is_not sep) p ≡ true
    → split_once sep (p ++ (sep ∷ r)) ≡ some (p, r)
unfolding split_once all
split_once-append sep [] r h = rw (==_refl sep) refl
split_once-append sep (c ∷ p) r h =
    let e : (c == sep) ≡ false = ground (arith, h) in
    rw (e, split_once-append sep p r (ground (arith, h))) refl

abbrev pub each : (Text → Bool) → List Text → Bool
each p [] = true
each p (t ∷ ts) = p t && each p ts

-- Pieces without the separator, joined by it, are what splitting gives back.
pub split-join :
    (sep : ℕ) (p : Text) (ps : List Text)
    → each (all (is_not sep)) (p ∷ ps) ≡ true
    → split sep (join (sep ∷ []) (p ∷ ps)) ≡ p ∷ ps
unfolding join
split-join sep p [] h = split-plain sep p (ground (arith, h))
split-join sep p (q ∷ ps) h =
    rw
      (
        split-append sep p (join (sep ∷ []) (q ∷ ps)) (ground (arith, h)),
        split-join sep q ps (ground (arith, h)),
      )
      refl
