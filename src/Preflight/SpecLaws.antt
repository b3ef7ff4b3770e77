-- ===== src/Preflight/SpecLaws.antt =====
-- The devices that `check_kargs` and `check_fstab` of bootguard/src/preflight.rs ask for.
use agenticlinux.Prelude.{
  ◌≡◌, ◌↔◌, refl, subst, Bool, true, List, [], ◌∷◌, Option, none, some, All, Bool-cases, inl, inr,
  some_injective,
}
use agenticlinux.Text.{Text, trim}
use agenticlinux.Text.Split.{lines}
use agenticlinux.Preflight.Specs.{
  root_device, cons_if_some, needed_device, missing, check_kargs, check_lines, check_fstab,
}
use agenticlinux.Preflight.Devices.{RootIs, root_device_iff}
use agenticlinux.Preflight.Entries.{Needs, needed_device_iff}

both_iff : {A B C D : Type 0} → A ↔ (B × C) → C ↔ D → A ↔ (B × D)
both_iff f g = ((λ a. let (b, c) = f.0 a in (b, g.0 c)), λ bd. f.1 (bd.0, g.1 bd.1))

module _ (exists : Text → Bool) where
  -- The device that is needed, if any, exists.
  abbrev Present : Option Text → Type 0
  Present none = Unit
  Present (some d) = exists d ≡ true

  missing_iff :
      (message : Text → Text) (o : Option Text) (ms : List Text)
      → (cons_if_some (missing exists message o) ms ≡ []) ↔ (Present o × (ms ≡ []))
  unfolding missing
  missing_iff message none ms = ((λ h. (tt, h)), λ h. h.1)
  missing_iff message (some d) ms = elim (Bool-cases (exists d)) [
    | inl e ↦ rw e ((λ h. (refl, h)), λ h. h.1)
    | inr e ↦ rw e ((λ h. cc h), λ h. cc (h.0))
  ]

  check_kargs-Present :
      (kargs : List Text)
      → (check_kargs exists kargs ≡ []) ↔ All (λ k. Present (root_device k)) kargs
  unfolding check_kargs
  check_kargs-Present [] = ((λ _. tt), λ _. refl)
  check_kargs-Present (k ∷ ks) =
      both_iff (missing_iff _ (root_device k) (check_kargs exists ks)) (check_kargs-Present ks)

  check_lines-Present :
      (ls : List Text)
      → (check_lines exists ls ≡ []) ↔ All (λ l. Present (needed_device (trim l))) ls
  unfolding check_lines
  check_lines-Present [] = ((λ _. tt), λ _. refl)
  check_lines-Present (l ∷ ls) =
      both_iff (missing_iff _ (needed_device (trim l)) (check_lines exists ls))
        (check_lines-Present ls)

  -- The devices that a line or an argument asks for exist.
  abbrev pub Exist : (Text → Text → Type 0) → Text → Type 0
  Exist R l = (dev : Text) → R l dev → exists dev ≡ true

  Present-Exist :
      (R : Text → Text → Type 0) (l : Text) (o : Option Text)
      → ((dev : Text) → (o ≡ some dev) ↔ R l dev)
      → Present o ↔ Exist R l
  Present-Exist R l none asks = ((λ _ dev r. absurd (cc ((asks dev).1 r))), λ _. tt)
  Present-Exist R l (some d) asks = (
    λ h dev r. subst (λ x. exists x ≡ true) (some_injective ((asks dev).1 r)) h,
    λ h. h d ((asks d).0 refl),
  )

  All-Exist :
      (R : Text → Text → Type 0) (of : Text → Option Text)
      → ((l dev : Text) → (of l ≡ some dev) ↔ R l dev)
      → (ls : List Text) → All (λ l. Present (of l)) ls ↔ All (Exist R) ls
  All-Exist R of asks [] = ((λ h. h), λ h. h)
  All-Exist R of asks (l ∷ ls) =
      let here = Present-Exist R l (of l) (asks l) in
      let later = All-Exist R of asks ls in
      ((λ h. (here.0 h.0, later.0 h.1)), λ h. (here.1 h.0, later.1 h.1))

  -- The kernel arguments pass if and only if every device that a `root=` among them names exists.
  pub check_kargs_iff :
      (kargs : List Text) → (check_kargs exists kargs ≡ []) ↔ All (Exist RootIs) kargs
  check_kargs_iff kargs =
      let present = check_kargs-Present kargs in
      let exist = All-Exist RootIs root_device root_device_iff kargs in
      ((λ h. exist.0 (present.0 h)), λ h. present.1 (exist.1 h))

  -- An fstab passes if and only if, for every entry that has no option nofail, noauto, bind or rbind
  -- and no type of a network, pseudo or FUSE filesystem, the device that its specification names
  -- exists; comments, and lines of fewer than two words, are no entries.
  pub check_fstab_iff :
      (text : Text) → (check_fstab exists text ≡ []) ↔ All (Exist Needs) (lines text)
  unfolding check_fstab
  check_fstab_iff text =
      let present = check_lines-Present (lines text) in
      let exist = All-Exist Needs (λ l. needed_device (trim l)) needed_device_iff (lines text) in
      ((λ h. exist.0 (present.0 h)), λ h. present.1 (exist.1 h))
