-- ===== src/Geometry/RoundTrip.antt =====
-- Reading back the specs that are printed.
use vtladm.Prelude.{
  ℕ, ◌≡◌, ◌≤◌, refl, arith, Bool, true, List, [], ◌∷◌, some, map, decimal, parse_i32-decimal, all,
  all-decimal, is_digit, All,
}
use vtladm.Settings.{trim}
use vtladm.Strings.{split, split_once, join}
use vtladm.Strings.Plain.{
  trim-plain, all-impl, all-append, is_not, not_space, split_once-append, split-join, each,
}
use vtladm.Geometry.{max_drives_per_lib, max_data_slots_per_lib, clamp}
use vtladm.Geometry.Order.{InRange}
use vtladm.Geometry.Spec.{
  segment_text, spec_text, parse_segment, parse_segments, parse_vtl_instances_segments,
}

digits_are :
    (q : ℕ → Bool) → ((c : ℕ) → is_digit c ≡ true → q c ≡ true) → (n : ℕ) → all q (decimal n) ≡ true
digits_are q h n = all-impl is_digit q h (decimal n) (all-decimal n)

trim-decimal : (n : ℕ) → trim (decimal n) ≡ decimal n
trim-decimal n = trim-plain (decimal n) (digits_are not_space (λ c h. ground (arith, h)) n)

pub segment_plain :
    (q : ℕ → Bool)
    → ((c : ℕ) → is_digit c ≡ true → q c ≡ true)
    → q b'x' ≡ true
    → (p : ℕ × ℕ) → all q (segment_text p) ≡ true
segment_plain q h x (d, s) =
    all-append q (decimal d) (b'x' ∷ decimal s) (digits_are q h d)
      (unfold all in rw (x, digits_are q h s) refl)

clamp-InRange : (max n : ℕ) → 1 ≤ n → n ≤ max → clamp max n ≡ n
clamp-InRange max n h k = ground arith

pub parse_segment-segment_text : (p : ℕ × ℕ) → InRange p → parse_segment (segment_text p) ≡ some p
unfolding parse_segment
parse_segment-segment_text (d, s) (d1, d8, s1, s256) =
    rw
      (
        trim-plain (segment_text (d, s))
            (segment_plain not_space (λ c h. ground (arith, h)) refl (d, s)),
        split_once-append b'x' (decimal d) (decimal s)
            (digits_are (is_not b'x') (λ c h. ground (arith, h)) d),
        trim-decimal d,
        trim-decimal s,
        parse_i32-decimal d (omega arith),
        parse_i32-decimal s (omega arith),
        clamp-InRange max_drives_per_lib d d1 d8,
        clamp-InRange max_data_slots_per_lib s s1 s256,
      )
      refl

parse_segments-map :
    (segs : List (ℕ × ℕ)) → All InRange segs → parse_segments (map segment_text segs) ≡ segs
unfolding parse_segments
parse_segments-map [] h = refl
parse_segments-map (p ∷ ps) h =
    rw (parse_segment-segment_text p h.0, parse_segments-map ps h.1) refl

pub no_comma : (segs : List (ℕ × ℕ)) → each (all (is_not b',')) (map segment_text segs) ≡ true
no_comma [] = refl
no_comma (p ∷ ps) =
    rw (segment_plain (is_not b',') (λ c h. ground (arith, h)) refl p, no_comma ps) refl

-- A spec of segments in the ranges of the kernel, printed, parses back as it was.
pub parse-spec_text :
    (segs : List (ℕ × ℕ)) → All InRange segs → parse_vtl_instances_segments (spec_text segs) ≡ segs
unfolding parse_vtl_instances_segments
parse-spec_text [] h = unfold join split parse_segments parse_segment split_once trim in refl
parse-spec_text (p ∷ ps) h =
    rw (split-join b',' (segment_text p) (map segment_text ps) (no_comma (p ∷ ps)))
      (parse_segments-map (p ∷ ps) h)
