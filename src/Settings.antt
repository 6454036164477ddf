-- ===== src/Settings.antt =====
-- The switches of vtladm-rc/userspace/src/robot_sync.rs and vtladm-rc/userspace/src/reconcile.rs:
-- an environment variable that reads as a Boolean, else the value of vtl.conf.
use vtladm.Prelude.{
  ℕ, Text, zero, suc, ◌+◌, ◌-◌, Bool, true, false, ◌&&◌, ◌||◌, List, [], ◌∷◌, Option, none, some,
  ◌==◌, leb, if◌then◌else◌, codes, text_eq,
}

-- White space in ASCII.
abbrev pub is_space : ℕ → Bool
is_space c = c == 32 || leb 9 c && leb c 13

-- White space of three bytes.
abbrev is_space_of_three : ℕ → ℕ → ℕ → Bool
is_space_of_three c d e =
    c == 225 && d == 154 && e == 128
    || c == 226 && d == 128 && (leb 128 e && leb e 138 || e == 168 || e == 169 || e == 175)
    || c == 226 && d == 129 && e == 159
    || c == 227 && d == 128 && e == 128

abbrev three_width : ℕ → ℕ → Text → ℕ
three_width c d [] = 0
three_width c d (e ∷ s) = if is_space_of_three c d e then 3 else 0

abbrev wide_width : ℕ → Text → ℕ
wide_width c [] = 0
wide_width c (d ∷ s) =
    if c == 194 then (if d == 133 || d == 160 then 2 else 0) else three_width c d s

-- How many bytes the white space at the head takes, 0 where none stands there: the characters with
-- Unicode's property White_Space, in UTF-8.
abbrev pub space_width : Text → ℕ
space_width [] = 0
space_width (c ∷ s) = if leb c 127 then (if is_space c then 1 else 0) else wide_width c s

-- `n` more bytes belong to a white space.
unfoldable pub skip_space : ℕ → Text → Text
skip_space n [] = []
skip_space zero (c ∷ s) =
    let width = space_width (c ∷ s) in if width == 0 then c ∷ s else skip_space (width - 1) s
skip_space (suc n) (c ∷ s) = skip_space n s

unfoldable pub trim_start : Text → Text
unfolding skip_space
trim_start s = skip_space 0 s

abbrev no_bytes : Text → Bool
no_bytes [] = true
no_bytes (c ∷ s) = false

-- A text ends where only white space follows.
unfoldable pub trim_end : Text → Text
unfolding trim_start
trim_end [] = []
trim_end (c ∷ s) = if no_bytes (trim_start (c ∷ s)) then [] else c ∷ trim_end s

unfoldable pub trim : Text → Text
unfolding trim_start trim_end
trim s = trim_end (trim_start s)

abbrev pub to_lower : ℕ → ℕ
to_lower c = if leb b'A' c && leb c b'Z' then c + 32 else c

unfoldable pub to_ascii_lowercase : Text → Text
to_ascii_lowercase [] = []
to_ascii_lowercase (c ∷ s) = to_lower c ∷ to_ascii_lowercase s

-- `matches!(t, …)` on a list of texts.
unfoldable pub is_one_of : Text → List Text → Bool
is_one_of t [] = false
is_one_of t (x ∷ xs) = text_eq t x || is_one_of t xs

abbrev off_words : List Text
off_words = codes "0" ∷ codes "false" ∷ codes "no" ∷ codes "off" ∷ []

abbrev on_words : List Text
on_words = codes "1" ∷ codes "true" ∷ codes "yes" ∷ codes "on" ∷ []

-- `robot_sync_enabled`, for the variable's value and the configured switch. The two switches below
-- are read in the same way.
unfoldable pub robot_sync_enabled : Option Text → Bool → Bool
unfolding trim to_ascii_lowercase is_one_of
robot_sync_enabled none configured = configured
robot_sync_enabled (some s) configured =
    let t = to_ascii_lowercase (trim s) in
    if is_one_of t off_words then false else if is_one_of t on_words then true else configured

unfoldable pub auto_reconcile_pull_enabled : Option Text → Bool → Bool
unfolding robot_sync_enabled
auto_reconcile_pull_enabled = robot_sync_enabled

-- The switches as an operation finds them.
pub record Settings : Type 0 where
  pub env_robot_sync : Option Text
  pub conf_robot_sync : Bool
  pub env_auto_reconcile_pull : Option Text
  pub conf_auto_reconcile_pull : Bool

abbrev pub robot_sync : Settings → Bool
robot_sync s = robot_sync_enabled s.env_robot_sync s.conf_robot_sync

abbrev pub auto_reconcile_pull : Settings → Bool
auto_reconcile_pull s =
    auto_reconcile_pull_enabled s.env_auto_reconcile_pull s.conf_auto_reconcile_pull
