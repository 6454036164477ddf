-- ===== src/Geometry/Clamped.antt =====
-- The segments that are read from the kernel lie in its ranges.
use vtladm.Prelude.{
  ℕ, Text, ◌-◌, ◌≡◌, ◌≤◌, arith, List, [], ◌∷◌, Option, none, some, ltb, zero, suc, length, ℤ, pos,
  negsuc, parse_i32, All, All-append, Option-cases, Bool-cases, inl, inr, subst,
}
use vtladm.Settings.{trim}
use vtladm.Strings.{split, split_once}
use vtladm.Geometry.{max_drives_per_lib, max_data_slots_per_lib}
use vtladm.Geometry.Order.{InRange}
use vtladm.Geometry.Spec.{
  parse_segment, parse_segments, parse_vtl_instances_segments, clamped, of_halves, clamp_i32,
  at_least, repeat, plan_b_idle_host_segment, unwrap_or_default,
  read_live_kernel_vtl_instances_segments, some_nonempty,
}

-- Whatever parses is clamped into the ranges.
clamp_i32-InRange : (max : ℕ) (z : ℤ) → 1 ≤ max → (1 ≤ clamp_i32 max z) × (clamp_i32 max z ≤ max)
clamp_i32-InRange max (pos n) h = ground arith
clamp_i32-InRange max (negsuc n) h = (omega arith, h)

clamped-InRange : (d s : Option ℤ) (p : ℕ × ℕ) → clamped d s ≡ some p → InRange p
clamped-InRange none s p h = cc h
clamped-InRange (some d) none p h = cc h
clamped-InRange (some d) (some s) p h =
    let e : (clamp_i32 max_drives_per_lib d, clamp_i32 max_data_slots_per_lib s) ≡ p = cc h in
    let (d1, d8) = clamp_i32-InRange max_drives_per_lib d (omega arith) in
    let (s1, s256) = clamp_i32-InRange max_data_slots_per_lib s (omega arith) in
    subst InRange e (d1, d8, s1, s256)

of_halves-InRange : (h : Option (Text × Text)) (p : ℕ × ℕ) → of_halves h ≡ some p → InRange p
of_halves-InRange none p e = cc e
of_halves-InRange (some (a, b)) p e = clamped-InRange (parse_i32 (trim a)) (parse_i32 (trim b)) p e

parse_segments-InRange : (toks : List Text) → All InRange (parse_segments toks)
unfolding parse_segments parse_segment
parse_segments-InRange [] = tt
parse_segments-InRange (tok ∷ toks) = elim (Option-cases (parse_segment tok)) [
  | inl none_ ↦ rw none_ (parse_segments-InRange toks)
  | inr (p, e) ↦
      rw e (of_halves-InRange (split_once b'x' (trim tok)) p e, parse_segments-InRange toks)
]

-- The segments that the loaded module has, none if it cannot be read.
abbrev pub live_segments : Option Text → List (ℕ × ℕ)
live_segments sysfs = unwrap_or_default (read_live_kernel_vtl_instances_segments sysfs)

pub live_segments-InRange : (sysfs : Option Text) → All InRange (live_segments sysfs)
unfolding read_live_kernel_vtl_instances_segments parse_vtl_instances_segments
live_segments-InRange none = tt
live_segments-InRange (some s) = nonempty _ (parse_segments-InRange (split b',' (trim s)))
  where
    nonempty :
        (l : List (ℕ × ℕ)) → All InRange l → All InRange (unwrap_or_default (some_nonempty l))
    nonempty [] h = tt
    nonempty (p ∷ ps) h = h

repeat-InRange : (n : ℕ) → All InRange (repeat n plan_b_idle_host_segment)
unfolding repeat
repeat-InRange zero = tt
repeat-InRange (suc n) = (omega arith, repeat-InRange n)

pub at_least-InRange :
    (n : ℕ) (live : List (ℕ × ℕ)) → All InRange live → All InRange (at_least n live)
at_least-InRange n live h = elim (Bool-cases (ltb (length live) n)) [
  | inl short ↦ rw short (All-append InRange live _ h (repeat-InRange (n - length live)))
  | inr long ↦ rw long h
]
