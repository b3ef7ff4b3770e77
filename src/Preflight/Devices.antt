-- ===== src/Preflight/Devices.antt =====
-- The devices that `spec_to_dev` and `check_fstab` of bootguard/src/preflight.rs are about, described
-- apart from the code: by the words of fstab(5) and of the `root=` argument.
use agenticlinux.Prelude.{
  ◌≡◌, ◌↔◌, refl, ◌∙◌, ap, sym, inl, inr, true, false, ◌∷◌, ◌++◌, some, Bool-cases, Option-cases,
  some_injective, ◌==◌,
}
use agenticlinux.Text.{Text, codes, equal, starts_with, has_char, trim_matches, strip_prefix}
use agenticlinux.Text.Laws.{equal_iff, starts_with-true, strip_prefix-some}
use agenticlinux.Text.Split.{split_once}
use agenticlinux.Text.SplitLaws.{split_once_at, split_once-some}
use agenticlinux.Preflight.Specs.{by_name, device_path, tagged, spec_to_dev, root_device}

-- The tags of a device, and the directories of /dev/disk with a link for each value.
pub data Tag (tag dir : Text) : Type 0 where
  uuid : tag ≡ codes "UUID" → dir ≡ codes "by-uuid" → Tag tag dir
  label : tag ≡ codes "LABEL" → dir ≡ codes "by-label" → Tag tag dir
  partuuid : tag ≡ codes "PARTUUID" → dir ≡ codes "by-partuuid" → Tag tag dir
  partlabel : tag ≡ codes "PARTLABEL" → dir ≡ codes "by-partlabel" → Tag tag dir

abbrev pub unquoted : Text → Text
unquoted v = trim_matches (λ c. c == b'"') v

-- The specification names the device: by a tag whose value has no slash, or by its path.
pub data Names (spec dev : Text) : Type 0 where
  by_tag :
      (tag dir v : Text)
      → Tag tag dir
      → spec ≡ tag ++ b'=' ∷ v
      → has_char b'/' v ≡ false
      → dev ≡ codes "/dev/disk/" ++ (dir ++ (b'/' ∷ unquoted v))
      → Names spec dev
  by_path : (r : Text) → spec ≡ codes "/dev/" ++ r → dev ≡ spec → Names spec dev

by_name-some :
    (dir v : Text) {d : Text}
    → by_name dir v ≡ some d
    → (has_char b'/' v ≡ false) × (d ≡ codes "/dev/disk/" ++ (dir ++ (b'/' ∷ unquoted v)))
unfolding by_name
by_name-some dir v h = elim (Bool-cases (has_char b'/' v)) [
  | inl e ↦ absurd (cc (rw e at h))
  | inr e ↦ (e, sym (some_injective (rw e at h)))
]

device_path-Names : (spec : Text) {d : Text} → device_path spec ≡ some d → Names spec d
unfolding device_path
device_path-Names spec h = elim (Bool-cases (starts_with spec (codes "/dev/"))) [
  | inl e ↦
      let (r, s) = starts_with-true spec (codes "/dev/") e in
      by_path r s (sym (some_injective (rw e at h)))
  | inr e ↦ absurd (cc (rw e at h))
]

tag-Names :
    (spec k tag dir v : Text) {d : Text}
    → Tag tag dir
    → spec ≡ k ++ b'=' ∷ v
    → equal k tag ≡ true
    → by_name dir v ≡ some d
    → Names spec d
tag-Names spec k tag dir v is s e h =
    let (plain, named) = by_name-some dir v h in
    by_tag tag dir v is (s ∙ ap (λ x. x ++ b'=' ∷ v) ((equal_iff k tag).0 e)) plain named

tagged-Names :
    (spec k v : Text) {d : Text}
    → spec ≡ k ++ b'=' ∷ v
    → tagged spec (some (k, v)) ≡ some d
    → Names spec d
unfolding tagged
tagged-Names spec k v s h = elim (Bool-cases (equal k (codes "UUID"))) [
  | inl e ↦ tag-Names spec k (codes "UUID") (codes "by-uuid") v (uuid refl refl) s e (rw e at h)
  | inr a ↦ elim (Bool-cases (equal k (codes "LABEL"))) [
    | inl e ↦
        tag-Names spec k (codes "LABEL") (codes "by-label") v (label refl refl) s e (rw (a, e) at h)
    | inr b ↦ elim (Bool-cases (equal k (codes "PARTUUID"))) [
      | inl e ↦
          tag-Names spec k (codes "PARTUUID") (codes "by-partuuid") v (partuuid refl refl) s e
            (rw (a, b, e) at h)
      | inr c ↦ elim (Bool-cases (equal k (codes "PARTLABEL"))) [
        | inl e ↦
            tag-Names spec k (codes "PARTLABEL") (codes "by-partlabel") v (partlabel refl refl) s e
              (rw (a, b, c, e) at h)
        | inr e ↦ device_path-Names spec (rw (a, b, c, e) at h)
      ]
    ]
  ]
]

spec_to_dev-Names : (spec : Text) {d : Text} → spec_to_dev spec ≡ some d → Names spec d
unfolding spec_to_dev tagged
spec_to_dev-Names spec h = elim (Option-cases (split_once b'=' spec)) [
  | inl e ↦ device_path-Names spec (rw e at h)
  | inr ((k, v), e) ↦ tagged-Names spec k v (split_once-some b'=' spec e).0 (rw e at h)
]

Tag-dev :
    (tag dir v : Text)
    → Tag tag dir
    → has_char b'/' v ≡ false
    → spec_to_dev (tag ++ b'=' ∷ v) ≡ some (codes "/dev/disk/" ++ (dir ++ (b'/' ∷ unquoted v)))
unfolding spec_to_dev tagged by_name equal has_char
Tag-dev tag dir v (uuid t d) h = rw (t, d, split_once_at b'=' (codes "UUID") v refl, h) refl
Tag-dev tag dir v (label t d) h = rw (t, d, split_once_at b'=' (codes "LABEL") v refl, h) refl
Tag-dev tag dir v (partuuid t d) h = rw (t, d, split_once_at b'=' (codes "PARTUUID") v refl, h) refl
Tag-dev tag dir v (partlabel t d) h =
    rw (t, d, split_once_at b'=' (codes "PARTLABEL") v refl, h) refl

path_dev : (r : Text) → spec_to_dev (codes "/dev/" ++ r) ≡ some (codes "/dev/" ++ r)
unfolding spec_to_dev tagged device_path split_once equal starts_with
path_dev r = elim (Option-cases (split_once b'=' r)) [
  | inl e ↦ rw e refl
  | inr ((a, b), e) ↦ rw e refl
]

-- `spec_to_dev` finds just the devices that are named.
pub spec_to_dev_iff : (spec dev : Text) → (spec_to_dev spec ≡ some dev) ↔ Names spec dev
spec_to_dev_iff spec dev = (
  λ h. spec_to_dev-Names spec h,
  λ n. elim n [
    | by_tag tag dir v is s plain d ↦
        ap spec_to_dev s ∙ Tag-dev tag dir v is plain ∙ ap some (sym d)
    | by_path r s d ↦ ap spec_to_dev s ∙ path_dev r ∙ ap some (sym (d ∙ s))
  ],
)

-- The argument names the root device.
abbrev pub RootIs : Text → Text → Type 0
RootIs k dev = (spec : Text) × (k ≡ codes "root=" ++ spec) × Names spec dev

root_device_at : (spec : Text) → root_device (codes "root=" ++ spec) ≡ spec_to_dev spec
unfolding root_device strip_prefix
root_device_at spec = refl

root_device-RootIs : (k : Text) {dev : Text} → root_device k ≡ some dev → RootIs k dev
unfolding root_device
root_device-RootIs k h = elim (Option-cases (strip_prefix k (codes "root="))) [
  | inl e ↦ absurd (cc (rw (root_device, e) at h))
  | inr (spec, e) ↦ (
    spec,
    strip_prefix-some k (codes "root=") spec e,
    spec_to_dev-Names spec (rw (root_device, e) at h),
  )
]

pub root_device_iff : (k dev : Text) → (root_device k ≡ some dev) ↔ RootIs k dev
root_device_iff k dev = (
  λ h. root_device-RootIs k h,
  λ r.
      let (spec, s, n) = r in
      ap root_device s ∙ root_device_at spec ∙ (spec_to_dev_iff spec dev).1 n,
)
