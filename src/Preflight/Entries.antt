-- ===== src/Preflight/Entries.antt =====
-- The entries of an fstab that `check_fstab` of bootguard/src/preflight.rs checks, described apart from
-- the code: by the words of fstab(5).
use agenticlinux.Prelude.{
  ◌≡◌, ◌↔◌, refl, ◌∙◌, ap, ◌⊎◌, inl, inr, Bool, true, false, ◌||◌, List, [], ◌∷◌, ◌++◌, Option,
  none, some, Bool-cases,
}
use agenticlinux.Text.{Text, codes, equal, starts_with, trim, contains, any, is_empty}
use agenticlinux.Text.Laws.{equal_iff, starts_with-append, starts_with-true}
use agenticlinux.Text.Split.{split, split_whitespace}
use agenticlinux.Preflight.Specs.{fstab_fields, is_skipped, needed_of, needed_device}
use agenticlinux.Preflight.Devices.{Names, spec_to_dev_iff}

abbrev pub IsIn : Text → List Text → Type 0
IsIn x [] = ⊥
IsIn x (y ∷ l) = (y ≡ x) ⊎ IsIn x l

abbrev pub options : List Text
options = codes "nofail" ∷ codes "noauto" ∷ codes "bind" ∷ codes "rbind" ∷ []

abbrev pub types : List Text
types =
    codes "nfs"
    ∷ codes "nfs4"
    ∷ codes "cifs"
    ∷ codes "smb3"
    ∷ codes "9p"
    ∷ codes "virtiofs"
    ∷ codes "tmpfs"
    ∷ codes "overlay"
    ∷ codes "none"
    ∷ codes "bpf"
    ∷ []

-- An entry that may be missing at boot: by its options or by its type.
pub data Exempt (fstype opts : Text) : Type 0 where
  by_option : (o : Text) → IsIn o (split b',' opts) → IsIn o options → Exempt fstype opts
  by_type : IsIn fstype types → Exempt fstype opts
  by_fuse : (r : Text) → fstype ≡ codes "fuse" ++ r → Exempt fstype opts

-- The words of an entry: the device, the mount point, and the type and options or their defaults.
pub data Fields (words : List Text) (dev fstype opts : Text) : Type 0 where
  two :
      (dir : Text)
      → words ≡ dev ∷ dir ∷ []
      → fstype ≡ codes "auto"
      → opts ≡ codes "defaults"
      → Fields words dev fstype opts
  three :
      (dir : Text)
      → words ≡ dev ∷ dir ∷ fstype ∷ []
      → opts ≡ codes "defaults"
      → Fields words dev fstype opts
  more :
      (dir : Text) (rest : List Text)
      → words ≡ dev ∷ dir ∷ fstype ∷ opts ∷ rest
      → Fields words dev fstype opts

-- The line is an entry, no comment, that is not exempt, and its specification names the device.
pub record Needs (line dev : Text) : Type 0 where
  pub spec : Text
  pub fstype : Text
  pub opts : Text
  pub entry : Fields (split_whitespace (trim line)) spec fstype opts
  pub no_comment : (r : Text) → ¬ (trim line ≡ b'#' ∷ r)
  pub kept : ¬ (Exempt fstype opts)
  pub names : Names spec dev

contains_iff : (l : List Text) (s : Text) → (contains l s ≡ true) ↔ IsIn s l
unfolding contains any
contains_iff [] s = ((λ h. absurd (cc h)), λ m. absurd m)
contains_iff (x ∷ l) s = elim (Bool-cases (equal x s)) [
  | inl e ↦ ((λ _. inl ((equal_iff x s).0 e)), λ _. rw e refl)
  | inr e ↦ (
    λ h. inr ((contains_iff l s).0 (rw e at h)),
    λ m. elim m [
      | inl same ↦ absurd (cc ((equal_iff x s).1 same, e))
      | inr later ↦ rw e ((contains_iff l s).1 later)
    ],
  )
]

any-contains_iff :
    (l os : List Text) → (any (contains l) os ≡ true) ↔ ((o : Text) × IsIn o os × IsIn o l)
unfolding any
any-contains_iff l [] = ((λ h. absurd (cc h)), λ m. absurd m.1)
any-contains_iff l (o ∷ os) = elim (Bool-cases (contains l o)) [
  | inl e ↦ ((λ _. (o, inl refl, (contains_iff l o).0 e)), λ _. rw e refl)
  | inr e ↦ (
    λ h. let (p, at, found) = (any-contains_iff l os).0 (rw e at h) in (p, inr at, found),
    λ m.
        let (p, at, found) = m in
        elim at [
          | inl same ↦ absurd (cc ((contains_iff l p).1 found, ap (contains l) same, e))
          | inr later ↦ rw e ((any-contains_iff l os).1 (p, later, found))
        ],
  )
]

is_skipped-Exempt : (t o : Text) → is_skipped t o ≡ true → Exempt t o
unfolding is_skipped
is_skipped-Exempt t o h = elim (Bool-cases (any (contains options) (split b',' o))) [
  | inl e ↦
      let (p, at, found) = (any-contains_iff options (split b',' o)).0 e in by_option p at found
  | inr a ↦ elim (Bool-cases (contains types t)) [
    | inl e ↦ by_type ((contains_iff types t).0 e)
    | inr b ↦ let (r, e) = starts_with-true t (codes "fuse") (rw (a, b) at h) in by_fuse r e
  ]
]

or_true : (a b : Bool) → b ≡ true → (a || b) ≡ true
or_true true b h = refl
or_true false b h = h

second_true : (a b c : Bool) → b ≡ true → (a || b || c) ≡ true
second_true true b c h = refl
second_true false b c h = rw h refl

Exempt-is_skipped : (t o : Text) → Exempt t o → is_skipped t o ≡ true
unfolding is_skipped
Exempt-is_skipped t o (by_option p at found) =
    rw ((any-contains_iff options (split b',' o)).1 (p, at, found)) refl
Exempt-is_skipped t o (by_type found) =
    second_true (any (contains options) (split b',' o)) (contains types t)
      (starts_with t (codes "fuse")) ((contains_iff types t).1 found)
Exempt-is_skipped t o (by_fuse r e) =
    or_true (any (contains options) (split b',' o) || contains types t)
      (starts_with t (codes "fuse"))
      (ap (λ x. starts_with x (codes "fuse")) e ∙ starts_with-append (codes "fuse") r)

fstab_fields-Fields :
    (ws : List Text) {d t o : Text} → fstab_fields ws ≡ some (d, t, o) → Fields ws d t o
unfolding fstab_fields
fstab_fields-Fields [] h = absurd (cc h)
fstab_fields-Fields (a ∷ []) h = absurd (cc h)
fstab_fields-Fields (a ∷ m ∷ []) h = two m (cc h) (cc h) (cc h)
fstab_fields-Fields (a ∷ m ∷ t ∷ []) h = three m (cc h) (cc h)
fstab_fields-Fields (a ∷ m ∷ t ∷ o ∷ rest) h = more m rest (cc h)

Fields-fstab_fields :
    (ws : List Text) (d t o : Text) → Fields ws d t o → fstab_fields ws ≡ some (d, t, o)
unfolding fstab_fields
Fields-fstab_fields ws d t o (two m e f g) = rw (e, f, g) refl
Fields-fstab_fields ws d t o (three m e g) = rw (e, g) refl
Fields-fstab_fields ws d t o (more m rest e) = rw e refl

needed_of-Names :
    (f : Option (Text × Text × Text)) {dev : Text}
    → needed_of f ≡ some dev
    → (d : Text) × (t : Text) × (o : Text) × (f ≡ some (d, t, o)) × (¬ (Exempt t o)) × Names d dev
unfolding needed_of
needed_of-Names none h = absurd (cc h)
needed_of-Names (some (d, t, o)) {dev = dev} h = elim (Bool-cases (is_skipped t o)) [
  | inl e ↦ absurd (cc (rw e at h))
  | inr e ↦
      (d, t, o, refl, λ x. cc (Exempt-is_skipped t o x, e), (spec_to_dev_iff d dev).0 (rw e at h))
]

begins-comment : (l r : Text) → l ≡ b'#' ∷ r → starts_with l (codes "#") ≡ true
unfolding starts_with
begins-comment l [] e = rw e refl
begins-comment l (c ∷ r) e = rw e refl

needed_device-Needs : (l : Text) {dev : Text} → needed_device (trim l) ≡ some dev → Needs l dev
unfolding needed_device
needed_device-Needs l h =
    elim (Bool-cases (is_empty (trim l) || starts_with (trim l) (codes "#"))) [
      | inl e ↦ absurd (cc (rw e at h))
      | inr e ↦
          let (d, t, o, f, kept, names) =
            needed_of-Names (fstab_fields (split_whitespace (trim l))) (rw e at h) in
          record {
            spec = d;
            fstype = t;
            opts = o;
            entry = fstab_fields-Fields (split_whitespace (trim l)) f;
            no_comment = λ r c. cc (e, or_true (is_empty (trim l)) _ (begins-comment (trim l) r c));
            kept = kept;
            names = names;
          }
    ]

no_words : (t : Text) (d : Text) (ws : List Text) → split_whitespace t ≡ d ∷ ws → is_empty t ≡ false
unfolding split_whitespace
no_words [] d ws e = absurd (cc e)
no_words (c ∷ t) d ws e = refl

Fields-not_empty :
    (t : Text) (d f o : Text) → Fields (split_whitespace t) d f o → is_empty t ≡ false
Fields-not_empty t d f o (two m e _ _) = no_words t d (m ∷ []) e
Fields-not_empty t d f o (three m e _) = no_words t d (m ∷ f ∷ []) e
Fields-not_empty t d f o (more m rest e) = no_words t d (m ∷ f ∷ o ∷ rest) e

not_comment : (t : Text) → ((r : Text) → ¬ (t ≡ b'#' ∷ r)) → starts_with t (codes "#") ≡ false
not_comment t none_such = elim (Bool-cases (starts_with t (codes "#"))) [
  | inl e ↦ let (r, s) = starts_with-true t (codes "#") e in absurd (none_such r s)
  | inr e ↦ e
]

Needs-needed_device : (l dev : Text) → Needs l dev → needed_device (trim l) ≡ some dev
unfolding needed_device needed_of
Needs-needed_device l dev n =
    let fields = Fields-fstab_fields (split_whitespace (trim l)) n.spec n.fstype n.opts n.entry in
    let full = Fields-not_empty (trim l) n.spec n.fstype n.opts n.entry in
    let dev_of = (spec_to_dev_iff n.spec dev).1 n.names in
    elim (Bool-cases (is_skipped n.fstype n.opts)) [
      | inl e ↦ absurd (n.kept (is_skipped-Exempt n.fstype n.opts e))
      | inr e ↦ rw (full, not_comment (trim l) n.no_comment, fields, e, dev_of) refl
    ]

-- `check_fstab` asks for just the devices that the entries need.
pub needed_device_iff : (l dev : Text) → (needed_device (trim l) ≡ some dev) ↔ Needs l dev
needed_device_iff l dev = ((λ h. needed_device-Needs l h), λ n. Needs-needed_device l dev n)
