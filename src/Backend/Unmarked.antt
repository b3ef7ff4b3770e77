-- ===== src/Backend/Unmarked.antt =====
-- `unstage` and `unstage_any` of bootguard/src/backend.rs: the marker of the staged deployment is gone.
use agenticlinux.Prelude.{
  ◌≡◌, refl, ◌∙◌, ap, sym, subst, Bool, true, false, none, Result, ok, err, arith,
}
use agenticlinux.Text.{Text, codes}
use agenticlinux.Machine.Monad.{Machine, Files, bind_ok, bind_holds}
use agenticlinux.Machine.Fs.{lookup, remove_dir_all, path_exists}
use agenticlinux.Machine.Helpers.{remove_if_exists, acquire}
use agenticlinux.Machine.Keeps.{LeavesAlone, acquire-Keeps, release-Keeps}
use agenticlinux.Sdboot.Files.{staged_dir, staged_flag, remove_staged, drop_staged}
use agenticlinux.Sdboot.Files as SdBoot
use agenticlinux.Sdboot.Unstaged.{
  remove_file_gone, kept_none, path_exists_files, lookup-erase_below,
}
use agenticlinux.Bootc.Commands as Bootc
use agenticlinux.Bootc.Commands.{System}
use agenticlinux.Backend.{Backend, grub, sd_boot, either_staged, unstage, unstage_any}

-- What tells the stack that a deployment is staged.
abbrev pub marker : Backend → Text
marker grub = codes "/run/ostree/staged-deployment"
marker sd_boot = staged_flag

-- Nothing tells the stack that a deployment is staged.
abbrev pub NoMarker : Backend → Files → Type 0
NoMarker b fs = lookup (marker b) fs ≡ none

kept_by_tree :
    (d q : Text) (w : Machine)
    → lookup q w.files ≡ none
    → lookup q (remove_dir_all d w).1.files ≡ none
unfolding remove_dir_all
kept_by_tree d q w e = ground (arith, e, lookup-erase_below d q w.files)

module _ (sys : System) (mount : (p : Text) → LeavesAlone sys.host (codes "mount") p) where
  -- Dropping what is staged brings no file about.
  drop_staged-none :
      (there : Bool) (q : Text) (w : Machine)
      → lookup q w.files ≡ none
      → lookup q (drop_staged sys.host there w).1.files ≡ none
  unfolding drop_staged remove_staged
  drop_staged-none false q w e = e
  drop_staged-none true q w e =
      let kept = acquire-Keeps sys.host q (mount q) w ∙ e in
      bind_holds (λ x. lookup q x.files ≡ none) (acquire sys.host) _ w kept
        (λ ro _.
          release-Keeps sys.host q (mount q) ro _
          ∙ kept_by_tree staged_dir q (acquire sys.host w).1 kept)

  -- Neither marker comes back while the other one's stack is unstaged.
  sd_boot-none :
      (q : Text) (w : Machine)
      → lookup q (remove_if_exists staged_flag w).1.files ≡ none
      → lookup q (SdBoot.unstage sys.host w).1.files ≡ none
  unfolding SdBoot.unstage
  sd_boot-none q w e =
      let v = (remove_if_exists staged_flag w).1 in
      let dropped =
        drop_staged-none (path_exists staged_dir v).0 q (path_exists staged_dir v).1
          (ap (lookup q) (path_exists_files staged_dir v) ∙ e) in
      bind_holds (λ x. lookup q x.files ≡ none) (remove_if_exists staged_flag) _ w e
        (λ was _.
          bind_holds (λ x. lookup q x.files ≡ none)
            (λ x. let (there, x') = path_exists staged_dir x in drop_staged sys.host there x') _ v
            dropped (λ _ _. dropped))

  sd_boot-NoMarker :
      (w : Machine) {was : Bool}
      → (SdBoot.unstage sys.host w).0 ≡ ok was
      → NoMarker sd_boot (SdBoot.unstage sys.host w).1.files
  unfolding SdBoot.unstage remove_if_exists
  sd_boot-NoMarker w e =
      let (_, removed, _, _) = bind_ok (remove_if_exists staged_flag) _ w e in
      sd_boot-none staged_flag w (remove_file_gone staged_flag w removed)

  grub-NoMarker :
      (w : Machine) {was : Bool}
      → (Bootc.unstage w).0 ≡ ok was
      → NoMarker grub (Bootc.unstage w).1.files
  unfolding Bootc.unstage remove_if_exists
  grub-NoMarker w e = remove_file_gone (marker grub) w e

  -- A stack that was unstaged has no marker any more.
  pub unstage-NoMarker :
      (b : Backend) (w : Machine) {was : Bool}
      → (unstage sys b w).0 ≡ ok was
      → NoMarker b (unstage sys b w).1.files
  unfolding unstage
  unstage-NoMarker grub w e = grub-NoMarker w e
  unstage-NoMarker sd_boot w e = sd_boot-NoMarker w e

  either_ok :
      (r : Result Bool × Machine) (o : Result Bool) {was : Bool}
      → (either_staged r o).0 ≡ ok was
      → (a : Bool) × (c : Bool) × (o ≡ ok a) × (r.0 ≡ ok c) × ((either_staged r o).1 ≡ r.1)
  unfolding either_staged
  either_ok (ok c, w) (ok a) e = (a, c, refl, refl, refl)
  either_ok (err m, w) (ok a) e = cc
  either_ok (r, w) (err m) e = cc

  -- With both unstaged, neither has a marker.
  pub unstage_any-NoMarker :
      (w : Machine) {was : Bool}
      → (unstage_any sys w).0 ≡ ok was
      → (b : Backend) → NoMarker b (unstage_any sys w).1.files
  unfolding unstage_any remove_if_exists
  unstage_any-NoMarker w e b =
      let v = (Bootc.unstage w).1 in
      let (_, _, first, second, same) =
        either_ok (SdBoot.unstage sys.host v) (Bootc.unstage w).0 e in
      subst (λ (x : Machine). NoMarker b x.files) (sym same)
        (elim b as (λ k. NoMarker k (SdBoot.unstage sys.host v).1.files) [
          | grub ↦
              sd_boot-none (marker grub) v
                (kept_none staged_flag (marker grub) v (grub-NoMarker w first))
          | sd_boot ↦ sd_boot-NoMarker v second
        ])
