-- ===== src/Sdboot/Unstaged.antt =====
-- `unstage` of bootguard/src/sdboot.rs leaves nothing staged.
use agenticlinux.Prelude.{
  ◌≡◌, refl, ◌∙◌, ap, sym, subst, inl, inr, Bool, true, false, [], ◌∷◌, ◌++◌, none, ok, arith,
  Option-cases, if◌then◌else◌,
}
use agenticlinux.Text.{Text, codes, equal, starts_with}
use agenticlinux.Text.Laws.{equal_iff, equal_refl}
use agenticlinux.Machine.Monad.{Machine, Files, bind_ok, pure}
use agenticlinux.Machine.Fs.{
  done, lookup, erase_below, path_exists, next_fault, remove_file, remove_dir_all,
}
use agenticlinux.Machine.FileLaws.{lookup-erase, or_message_ok}
use agenticlinux.Machine.Helpers.{
  Host, whether_removed, remove_if_exists, with_boot_rw, acquire, release,
}
use agenticlinux.Machine.Keeps.{LeavesAlone, acquire-Keeps, release-Keeps}
use agenticlinux.Sdboot.Files.{join, staged_dir, staged_flag, remove_staged, drop_staged, unstage}

pub lookup-erase_below :
    (d q : Text) (fs : Files)
    → lookup q (erase_below d fs) ≡ (if starts_with q (d ++ b'/' ∷ []) then none else lookup q fs)
unfolding lookup erase_below
lookup-erase_below d q [] = ground arith
lookup-erase_below d q ((p, b) ∷ fs) = ground (
  arith,
  lookup-erase_below d q fs,
  equal_iff p q,
  ap (λ x. starts_with x (d ++ b'/' ∷ [])) {x = p} {y = q},
)

pub remove_file_gone :
    (p : Text) (w : Machine) {was : Bool}
    → whether_removed p (remove_file p w).0 ≡ ok was
    → lookup p (remove_file p w).1.files ≡ none
unfolding remove_file
remove_file_gone p w o = elim (Option-cases (next_fault w.faults)) [
  | inr (f, fault) ↦ absurd (cc (rw fault at o))
  | inl calm ↦ elim (Option-cases (lookup p w.files)) [
    | inl missing ↦ rw (calm, missing) missing
    | inr (b, there) ↦ rw (calm, there, lookup-erase, equal_refl) refl
  ]
]

-- Removing a file brings no other one about.
pub kept_none :
    (p q : Text) (w : Machine) → lookup q w.files ≡ none → lookup q (remove_file p w).1.files ≡ none
unfolding remove_file
kept_none p q w e = ground (arith, e, lookup-erase q p w.files)

pub path_exists_files : (p : Text) (w : Machine) → (path_exists p w).1.files ≡ w.files
unfolding path_exists
path_exists_files p w = ground arith

remove_dir_all_done :
    (d : Text) (w : Machine)
    → (remove_dir_all d w).0 ≡ done tt
    → (remove_dir_all d w).1.files ≡ erase_below d w.files
unfolding remove_dir_all
remove_dir_all_done d w e = ground (arith, e)

-- No staged marker, and no entry in the staged directory.
abbrev pub NothingStaged : Files → Type 0
NothingStaged fs =
    (lookup staged_flag fs ≡ none) × ((name : Text) → lookup (join staged_dir name) fs ≡ none)

paths :
    (name : Text)
    → (starts_with (join staged_dir name) (staged_dir ++ b'/' ∷ []) ≡ true)
      × (starts_with staged_flag (staged_dir ++ b'/' ∷ []) ≡ false)
      × (equal staged_flag (join staged_dir name) ≡ false)
unfolding starts_with equal
paths name = (refl, refl, refl)

erased-NothingStaged :
    (fs : Files) → lookup staged_flag fs ≡ none → NothingStaged (erase_below staged_dir fs)
erased-NothingStaged fs gone = (
  lookup-erase_below staged_dir staged_flag fs ∙ rw (paths []).1 gone,
  λ name. lookup-erase_below staged_dir (join staged_dir name) fs ∙ rw (paths name).0 refl,
)

module _ (h : Host) (mount : (p : Text) → LeavesAlone h (codes "mount") p) where
  remove_held :
      (w : Machine)
      → lookup staged_flag w.files ≡ none
      → (with_boot_rw h remove_staged w).0 ≡ ok tt
      → NothingStaged (with_boot_rw h remove_staged w).1.files
  unfolding remove_staged
  remove_held w gone e =
      let (ro, _, e1, m) =
        bind_ok (acquire h)
          (λ was_ro v. ((remove_staged v).0, release h was_ro (remove_staged v).1)) w e in
      let v = (acquire h w).1 in
      let u = (remove_dir_all staged_dir v).1 in
      let removed = or_message_ok (remove_dir_all staged_dir v).0 _ e1 in
      let files = remove_dir_all_done staged_dir v removed in
      let gone' = acquire-Keeps h staged_flag (mount staged_flag) w ∙ gone in
      let (flag, entries) = erased-NothingStaged v.files gone' in
      let at : (p : Text)
          → lookup p (with_boot_rw h remove_staged w).1.files
            ≡ lookup p (erase_below staged_dir v.files) =
        λ p.
          ap (λ (x : Machine). lookup p x.files) m
          ∙ release-Keeps h p (mount p) ro u
          ∙ ap (lookup p) files in
      (at staged_flag ∙ flag, λ name. at (join staged_dir name) ∙ entries name)

  drop_staged-Nothing :
      (there : Bool) (w : Machine)
      → lookup staged_flag w.files ≡ none
      → (there ≡ false → (name : Text) → lookup (join staged_dir name) w.files ≡ none)
      → (drop_staged h there w).0 ≡ ok tt
      → NothingStaged (drop_staged h there w).1.files
  unfolding drop_staged
  drop_staged-Nothing true w gone empty e = remove_held w gone e
  drop_staged-Nothing false w gone empty e = (gone, empty refl)

  -- If `unstage` succeeds, there is no marker of a staged deployment and no staged boot entry any
  -- more, if a directory that is not seen holds no file, and `mount` leaves every file's content
  -- alone.
  pub unstage-NothingStaged :
      (w : Machine) {was : Bool}
      → ((path_exists staged_dir (remove_if_exists staged_flag w).1).0 ≡ false
          → (name : Text) → lookup (join staged_dir name) w.files ≡ none)
      → (unstage h w).0 ≡ ok was
      → NothingStaged (unstage h w).1.files
  unfolding unstage remove_if_exists
  unstage-NothingStaged w empty e =
      let (was, r, e1, m1) = bind_ok (remove_if_exists staged_flag) _ w e in
      let v = (remove_if_exists staged_flag w).1 in
      let (_, dropped, _, m2) =
        bind_ok (λ x. drop_staged h (path_exists staged_dir x).0 (path_exists staged_dir x).1)
          (λ _. pure was) v e1 in
      subst (λ (x : Machine). NothingStaged x.files) (sym (m1 ∙ m2))
        (drop_staged-Nothing (path_exists staged_dir v).0 (path_exists staged_dir v).1
          (ap (lookup staged_flag) (path_exists_files staged_dir v)
            ∙ remove_file_gone staged_flag w r)
          (λ missing name.
            ap (lookup (join staged_dir name)) (path_exists_files staged_dir v)
            ∙ kept_none staged_flag (join staged_dir name) w (empty missing name))
          dropped)
