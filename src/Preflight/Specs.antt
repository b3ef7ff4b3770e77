-- ===== src/Preflight/Specs.antt =====
-- bootguard/src/preflight.rs: `spec_to_dev`, `check_kargs` and `check_fstab`. Whether a path exists is
-- a function that they take, as in the source.
use agenticlinux.Prelude.{Bool, ◌||◌, List, [], ◌∷◌, ◌++◌, Option, none, some, if◌then◌else◌, ◌==◌}
use agenticlinux.Text.{
  Text, codes, equal, starts_with, strip_prefix, has_char, trim, trim_matches, contains, any,
  is_empty,
}
use agenticlinux.Text.Split.{lines, split, split_once, split_whitespace}

-- `by`: a name in a directory of /dev/disk, if it has no slash.
unfoldable pub by_name : Text → Text → Option Text
by_name dir v =
    if has_char b'/' v
    then none
    else some (codes "/dev/disk/" ++ (dir ++ (b'/' ∷ trim_matches (λ c. c == b'"') v)))

unfoldable pub device_path : Text → Option Text
device_path spec = if starts_with spec (codes "/dev/") then some spec else none

unfoldable pub tagged : Text → Option (Text × Text) → Option Text
tagged spec none = device_path spec
tagged spec (some (k, v)) =
    if equal k (codes "UUID")
    then by_name (codes "by-uuid") v
    else if equal k (codes "LABEL")
    then by_name (codes "by-label") v
    else if equal k (codes "PARTUUID")
    then by_name (codes "by-partuuid") v
    else if equal k (codes "PARTLABEL")
    then by_name (codes "by-partlabel") v
    else device_path spec

unfoldable pub spec_to_dev : Text → Option Text
spec_to_dev spec = tagged spec (split_once b'=' spec)

-- The device that a `root=` argument names.
unfoldable pub root_device : Text → Option Text
root_device k = elim (strip_prefix k (codes "root=")) [ some spec ↦ spec_to_dev spec | none ↦ none ]

abbrev pub cons_if_some : Option Text → List Text → List Text
cons_if_some none ms = ms
cons_if_some (some m) ms = m ∷ ms

-- The fields of a line that counts: device, type and options.
unfoldable pub fstab_fields : List Text → Option (Text × Text × Text)
fstab_fields (d ∷ _ ∷ t ∷ o ∷ _) = some (d, t, o)
fstab_fields (d ∷ _ ∷ t ∷ []) = some (d, t, codes "defaults")
fstab_fields (d ∷ _ ∷ []) = some (d, codes "auto", codes "defaults")
fstab_fields _ = none

abbrev skip_opts : List Text
skip_opts = codes "nofail" ∷ codes "noauto" ∷ codes "bind" ∷ codes "rbind" ∷ []

abbrev skip_fs : List Text
skip_fs =
    codes "nfs"
    ∷ codes "nfs4"
    ∷ codes "cifs"
    ∷ codes "smb3"
    ∷ codes "9p"
    ∷ codes "virtiofs"
    ∷ codes "tmpfs"
    ∷ codes "overlay"
    ∷ codes "none"
    ∷ codes "bpf"
    ∷ []

unfoldable pub is_skipped : Text → Text → Bool
is_skipped fstype opts =
    any (contains skip_opts) (split b',' opts)
    || contains skip_fs fstype
    || starts_with fstype (codes "fuse")

-- The device that an entry's line needs, if the entry is checked at all.
unfoldable pub needed_of : Option (Text × Text × Text) → Option Text
needed_of none = none
needed_of (some (d, t, o)) = if is_skipped t o then none else spec_to_dev d

-- A comment or an empty line is no entry.
unfoldable pub needed_device : Text → Option Text
needed_device l =
    if is_empty l || starts_with l (codes "#")
    then none
    else needed_of (fstab_fields (split_whitespace l))

module _ (exists : Text → Bool) where
  -- `filter(|d| !exists(d))`, and the message made of it.
  unfoldable pub missing : (Text → Text) → Option Text → Option Text
  missing message none = none
  missing message (some dev) = if exists dev then none else some (message dev)

  abbrev kernel_message : Text → Text → Text
  kernel_message k dev =
      codes "kernel argument `"
      ++ (k ++ (codes "` refers to " ++ (dev ++ codes ", which does not exist")))

  unfoldable pub check_kargs : List Text → List Text
  check_kargs [] = []
  check_kargs (k ∷ ks) = cons_if_some (missing (kernel_message k) (root_device k)) (check_kargs ks)

  abbrev fstab_message : Text → Text → Text
  fstab_message l dev =
      codes "fstab entry `"
      ++ (l ++ (codes "`: " ++ (dev ++ codes " does not exist and the entry lacks `nofail`")))

  -- The loop over the lines.
  unfoldable pub check_lines : List Text → List Text
  check_lines [] = []
  check_lines (l ∷ ls) =
      let t = trim l in cons_if_some (missing (fstab_message t) (needed_device t)) (check_lines ls)

  unfoldable pub check_fstab : Text → List Text
  check_fstab text = check_lines (lines text)
