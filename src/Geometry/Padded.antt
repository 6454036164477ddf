-- ===== src/Geometry/Padded.antt =====
-- Which segment each host has in the spec of plan B.
use vtladm.Prelude.{
  ℕ, Text, ◌-◌, ◌≡◌, ◌<◌, refl, sym, ap, ◌∙◌, arith, false, List, [], ◌∷◌, ◌++◌, Option, none, some,
  ltb, zero, suc, length, codes, map, decimal, All, Bool-cases, inl, inr,
}
use vtladm.Errors.{ok}
use vtladm.Catalog.{Catalog}
use vtladm.Strings.{join, is_empty, filter_nonempty}
use vtladm.Strings.Plain.{trim-plain, not_space, split-join}
use vtladm.Geometry.{build_vtl_instances_kernel_spec}
use vtladm.Geometry.Order.{InRange, spec-InRange, get_elem?}
use vtladm.Geometry.Spec.{
  segment_text, spec_text, built_spec_text, parse_vtl_instances_segments, trim_all, comma_parts,
  padded_parts, at_least, repeat, plan_b_idle_host_segment, build_vtl_instances_kernel_spec_padded,
}
use vtladm.Geometry.Clamped.{live_segments, live_segments-InRange, at_least-InRange}
use vtladm.Geometry.RoundTrip.{parse-spec_text, segment_plain, no_comma}

-- What each host is given, on the segments themselves.
overlay : ℕ → List (ℕ × ℕ) → List (ℕ × ℕ) → List (ℕ × ℕ)
overlay zero spec live = []
overlay (suc n) (p ∷ spec) [] = p ∷ overlay n spec []
overlay (suc n) (p ∷ spec) (l ∷ live) = p ∷ overlay n spec live
overlay (suc n) [] (l ∷ live) = l ∷ overlay n [] live
overlay (suc n) [] [] = plan_b_idle_host_segment ∷ overlay n [] []

padded_parts-map :
    (n : ℕ) (spec live : List (ℕ × ℕ))
    → padded_parts n (map segment_text spec) live ≡ map segment_text (overlay n spec live)
unfolding padded_parts overlay
padded_parts-map zero spec live = refl
padded_parts-map (suc n) (p ∷ spec) [] = ap (λ r. segment_text p ∷ r) (padded_parts-map n spec [])
padded_parts-map (suc n) (p ∷ spec) (l ∷ live) =
    ap (λ r. segment_text p ∷ r) (padded_parts-map n spec live)
padded_parts-map (suc n) [] (l ∷ live) = ap (λ r. segment_text l ∷ r) (padded_parts-map n [] live)
padded_parts-map (suc n) [] [] =
    ap (λ r. segment_text plan_b_idle_host_segment ∷ r) (padded_parts-map n [] [])

overlay-InRange :
    (n : ℕ) (spec live : List (ℕ × ℕ))
    → All InRange spec
    → All InRange live
    → All InRange (overlay n spec live)
unfolding overlay
overlay-InRange zero spec live h k = tt
overlay-InRange (suc n) (p ∷ spec) [] h k = (h.0, overlay-InRange n spec [] h.1 tt)
overlay-InRange (suc n) (p ∷ spec) (l ∷ live) h k = (h.0, overlay-InRange n spec live h.1 k.1)
overlay-InRange (suc n) [] (l ∷ live) h k = (k.0, overlay-InRange n [] live tt k.1)
overlay-InRange (suc n) [] [] h k = (omega arith, overlay-InRange n [] [] tt tt)

-- Splitting and trimming the built spec gives its parts.
trim_all-map : (segs : List (ℕ × ℕ)) → trim_all (map segment_text segs) ≡ map segment_text segs
unfolding trim_all
trim_all-map [] = refl
trim_all-map (p ∷ ps) =
    rw
      (
        trim-plain (segment_text p) (segment_plain not_space (λ c h. ground (arith, h)) refl p),
        trim_all-map ps,
      )
      refl

not_empty : (s t : Text) (c : ℕ) → is_empty (s ++ (c ∷ t)) ≡ false
not_empty [] t c = refl
not_empty (d ∷ s) t c = refl

filter_nonempty-map :
    (segs : List (ℕ × ℕ)) → filter_nonempty (map segment_text segs) ≡ map segment_text segs
unfolding filter_nonempty
filter_nonempty-map [] = refl
filter_nonempty-map ((d, s) ∷ ps) =
    rw (not_empty (decimal d) (decimal s) b'x', filter_nonempty-map ps) refl

comma_parts-spec_text :
    (p : ℕ × ℕ) (ps : List (ℕ × ℕ)) → comma_parts (spec_text (p ∷ ps)) ≡ map segment_text (p ∷ ps)
comma_parts-spec_text p ps =
    rw
      (
        split-join b',' (segment_text p) (map segment_text ps) (no_comma (p ∷ ps)),
        trim_all-map (p ∷ ps),
        filter_nonempty-map (p ∷ ps),
      )
      refl

abbrev or_idle : Option (ℕ × ℕ) → ℕ × ℕ
or_idle none = plan_b_idle_host_segment
or_idle (some l) = l

abbrev pick : Option (ℕ × ℕ) → Option (ℕ × ℕ) → ℕ × ℕ
pick (some p) l = p
pick none l = or_idle l

-- The segment of the database at `i`, else the live one at `i`, else an idle host.
abbrev pub host_segment : List (ℕ × ℕ) → List (ℕ × ℕ) → ℕ → ℕ × ℕ
host_segment spec live i = pick (get_elem? spec i) (get_elem? live i)

length-overlay : (n : ℕ) (spec live : List (ℕ × ℕ)) → length (overlay n spec live) ≡ n
unfolding overlay
length-overlay zero spec live = refl
length-overlay (suc n) (p ∷ spec) [] = ap suc (length-overlay n spec [])
length-overlay (suc n) (p ∷ spec) (l ∷ live) = ap suc (length-overlay n spec live)
length-overlay (suc n) [] (l ∷ live) = ap suc (length-overlay n [] live)
length-overlay (suc n) [] [] = ap suc (length-overlay n [] [])

get_elem?-overlay :
    (n i : ℕ) (spec live : List (ℕ × ℕ))
    → i < n
    → get_elem? (overlay n spec live) i ≡ some (host_segment spec live i)
unfolding overlay
get_elem?-overlay zero i spec live h = absurd (omega arith)
get_elem?-overlay (suc n) zero (p ∷ spec) [] h = refl
get_elem?-overlay (suc n) zero (p ∷ spec) (l ∷ live) h = refl
get_elem?-overlay (suc n) zero [] (l ∷ live) h = refl
get_elem?-overlay (suc n) zero [] [] h = refl
get_elem?-overlay (suc n) (suc i) (p ∷ spec) [] h = get_elem?-overlay n i spec [] (omega arith)
get_elem?-overlay (suc n) (suc i) (p ∷ spec) (l ∷ live) h =
    get_elem?-overlay n i spec live (omega arith)
get_elem?-overlay (suc n) (suc i) [] (l ∷ live) h = get_elem?-overlay n i [] live (omega arith)
get_elem?-overlay (suc n) (suc i) [] [] h = get_elem?-overlay n i [] [] (omega arith)

-- Idle hosts at the end of the live ones make no difference.
or_idle-append :
    (live : List (ℕ × ℕ)) (k i : ℕ)
    → or_idle (get_elem? (live ++ repeat k plan_b_idle_host_segment) i) ≡ or_idle (get_elem? live i)
unfolding repeat
or_idle-append [] zero i = refl
or_idle-append [] (suc k) zero = refl
or_idle-append [] (suc k) (suc i) = or_idle-append [] k i
or_idle-append (l ∷ live) k zero = refl
or_idle-append (l ∷ live) k (suc i) = or_idle-append live k i

or_idle-at_least :
    (n i : ℕ) (live : List (ℕ × ℕ))
    → or_idle (get_elem? (at_least n live) i) ≡ or_idle (get_elem? live i)
or_idle-at_least n i live = elim (Bool-cases (ltb (length live) n)) [
  | inl short ↦ rw short (or_idle-append live (n - length live) i)
  | inr long ↦ rw long refl
]

pick-at_least :
    (n i : ℕ) (o : Option (ℕ × ℕ)) (live : List (ℕ × ℕ))
    → pick o (get_elem? (at_least n live) i) ≡ pick o (get_elem? live i)
pick-at_least n i none live = or_idle-at_least n i live
pick-at_least n i (some p) live = refl

padded-eq :
    (sysfs : Option Text) (n : ℕ) (db : Catalog) (spec : List (ℕ × ℕ)) {text : Text}
    → build_vtl_instances_kernel_spec db ≡ ok spec
    → build_vtl_instances_kernel_spec_padded sysfs n db ≡ ok text
    → spec_text (overlay n spec (at_least n (live_segments sysfs))) ≡ text
unfolding build_vtl_instances_kernel_spec_padded built_spec_text
padded-eq sysfs n db [] built done = absurd (omega (arith, (spec-InRange db built).0))
padded-eq sysfs n db (p ∷ ps) {text} built done =
    let live = at_least n (live_segments sysfs) in
    let e : join (codes ",") (padded_parts n (comma_parts (spec_text (p ∷ ps))) live) ≡ text =
      ground (arith, built, done) in
    ap (join (codes ",")) (
      sym (padded_parts-map n (p ∷ ps) live)
      ∙ ap (λ l. padded_parts n l live) (sym (comma_parts-spec_text p ps)))
    ∙ e

-- The spec of plan B names as many hosts as the kernel has; a host has the segment of its library
-- where there is one, else the segment that it has in the kernel now, and is idle with 8 drives and
-- 256 slots where the kernel shows none.
pub padded_hosts :
    (sysfs : Option Text) (n i : ℕ) (db : Catalog) {spec : List (ℕ × ℕ)} {text : Text}
    → build_vtl_instances_kernel_spec db ≡ ok spec
    → build_vtl_instances_kernel_spec_padded sysfs n db ≡ ok text
    → i < n
    → (length (parse_vtl_instances_segments text) ≡ n)
      × (get_elem? (parse_vtl_instances_segments text) i
          ≡ some (host_segment spec (live_segments sysfs) i))
padded_hosts sysfs n i db {spec} built done below =
    let live = at_least n (live_segments sysfs) in
    let (_, _, ranges) = spec-InRange db built in
    let fits : All InRange (overlay n spec live) =
      overlay-InRange n spec live ranges (at_least-InRange n _ (live_segments-InRange sysfs)) in
    rw (← padded-eq sysfs n db spec built done) (
      rw (parse-spec_text (overlay n spec live) fits) (
        length-overlay n spec live,
        get_elem?-overlay n i spec live below
            ∙ ap some (pick-at_least n i (get_elem? spec i) (live_segments sysfs)),
      ))
