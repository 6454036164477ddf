-- ===== src/Holders.antt =====
-- Who uses the tape devices: vtladm-rc/userspace/src/scsi_tape_holders.rs and
-- vtladm-rc/userspace/src/lio_hold.rs. What the commands print and what the files say is asked of a
-- host, a parameter.
use vtladm.Prelude.{
  Text, Bool, true, false, ◌&&◌, ◌||◌, not, List, [], ◌∷◌, ◌++◌, Option, none, some, ◌==◌, ltb,
  if◌then◌else◌, text_eq, codes,
}
use vtladm.Strings.{lines, contains, split_whitespace, strip_prefix, is_empty}

-- `env` is `std::env::var`; `fuser_available` says whether one of the paths or the shell finds
-- `fuser`; `lsscsi` and `targetcli` are what the commands print, `none` where they fail;
-- `fuser_holds` says whether `fuser` exits with 0 on a path; `configfs_files` are the readable files
-- under /sys/kernel/config/target, in the order of the walk, none where it is no directory.
pub record Probes (K : Type 0) : Type 0 where
  pub env : Text → Option Text
  pub fuser_available : K → Bool
  pub lsscsi : K → Option Text
  pub fuser_holds : Text → K → Bool
  pub configfs_files : K → List Text
  pub targetcli : K → Option Text

pub data VtlHoldersProbe : Type 0 where
  clear busy fuser_unavailable : VtlHoldersProbe

-- The order of bytes. (A `PathBuf` compares by components, which is the same for names in /dev.)
unfoldable pub precedes : Text → Text → Bool
precedes [] [] = false
precedes [] (d ∷ t) = true
precedes (c ∷ s) [] = false
precedes (c ∷ s) (d ∷ t) = ltb c d || (c == d) && precedes s t

-- A sorted list stays sorted, and a path that is there is not put in again.
unfoldable pub insert_path : Text → List Text → List Text
unfolding precedes
insert_path p [] = p ∷ []
insert_path p (q ∷ qs) =
    let rest = insert_path p qs in
    if text_eq p q then q ∷ qs else if precedes p q then p ∷ q ∷ qs else q ∷ rest

-- `sort` and `dedup`.
unfoldable pub sorted : List Text → List Text
unfolding insert_path
sorted [] = []
sorted (p ∷ ps) = insert_path p (sorted ps)

-- A word `/dev/…` with something after the slash.
abbrev is_path : Option Text → Bool
is_path none = false
is_path (some rest) = not (is_empty rest)

unfoldable pub dev_paths : List Text → List Text
unfolding strip_prefix
dev_paths [] = []
dev_paths (t ∷ ts) =
    let rest = dev_paths ts in if is_path (strip_prefix (codes "/dev/") t) then t ∷ rest else rest

unfoldable pub paths_of_lines : List Text → List Text
unfolding contains split_whitespace dev_paths
paths_of_lines [] = []
paths_of_lines (l ∷ ls) =
    let rest = paths_of_lines ls in
    if contains l (codes "VTL") then dev_paths (split_whitespace l) ++ rest else rest

unfoldable pub parse_vtl_paths_from_lsscsi : Text → List Text
unfolding lines sorted paths_of_lines
parse_vtl_paths_from_lsscsi text = sorted (paths_of_lines (lines text))

abbrev paths_in : Option Text → List Text
paths_in none = []
paths_in (some text) = parse_vtl_paths_from_lsscsi text

unfoldable pub any : {A : Type 0} → (A → Bool) → List A → Bool
any p [] = false
any p (x ∷ xs) = p x || any p xs

-- `std::env::var(…) == Ok("1")`.
abbrev pub is_one : Option Text → Bool
is_one none = false
is_one (some s) = text_eq s (codes "1")

abbrev no_paths : List Text → Bool
no_paths [] = true
no_paths (p ∷ ps) = false

abbrev pub is_clear : VtlHoldersProbe → Bool
is_clear clear = true
is_clear busy = false
is_clear fuser_unavailable = false

abbrev pub lists : Option Text → List Text → Bool
lists none paths = false
lists (some text) paths = any (λ p. contains text p) paths

module _ {K : Type 0} (probes : Probes K) where
  unfoldable pub vtl_scsi_device_paths : K → List Text
  unfolding parse_vtl_paths_from_lsscsi
  vtl_scsi_device_paths k = paths_in (probes.lsscsi k)

  unfoldable pub probe_vtl_device_holders : K → VtlHoldersProbe
  unfolding vtl_scsi_device_paths any
  probe_vtl_device_holders k =
      if not (probes.fuser_available k)
      then fuser_unavailable
      else if any (λ path. probes.fuser_holds path k) (vtl_scsi_device_paths k)
      then busy
      else clear

  unfoldable pub refuse_rmmod_for_safety : K → Bool
  unfolding probe_vtl_device_holders
  refuse_rmmod_for_safety k =
      if is_one (probes.env (codes "VTL_FORCE_RMMOD"))
      then false
      else not (is_clear (probe_vtl_device_holders k))

  unfoldable pub targetcli_lists_vtl_path : List Text → K → Bool
  unfolding any contains
  targetcli_lists_vtl_path paths k = lists (probes.targetcli k) paths

  unfoldable pub configfs_references_path : Text → K → Bool
  unfolding any contains
  configfs_references_path path k = any (λ file. contains file path) (probes.configfs_files k)

  unfoldable pub lio_pscsi_references_vtl_sg : K → Bool
  unfolding vtl_scsi_device_paths any configfs_references_path targetcli_lists_vtl_path
  lio_pscsi_references_vtl_sg k =
      let paths = vtl_scsi_device_paths k in
      if no_paths paths
      then false
      else any (λ path. configfs_references_path path k) paths || targetcli_lists_vtl_path paths k
