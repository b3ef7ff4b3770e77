-- ===== src/Sdboot/Record.antt =====
-- `save_trial` of bootguard/src/sdboot.rs: the record of a trial, and the files around it.
use agenticlinux.Prelude.{
  true, ◌≡◌, refl, ◌∙◌, ap, inl, inr, false, some, arith, ok, Option-cases, &&_split, ◌&&◌,
}
use agenticlinux.Prelude.Results.{guard, guard_ok}
use agenticlinux.Text.{Text, equal}
use agenticlinux.Utf8.{encode}
use agenticlinux.Machine.Monad.{Machine, bind_ok, lift}
use agenticlinux.Machine.Fs.{lookup, write, rename, create_dir_all, next_fault}
use agenticlinux.Machine.FileLaws.{
  lookup-insert, lookup-write, lookup-erase, or_message_ok, write_done,
}
use agenticlinux.Machine.Helpers.{map_err}
use agenticlinux.Machine.Keeps.{Keeps}
use agenticlinux.Sys.{is_safe_id}
use agenticlinux.Sys.SafeId.{parse_trial-trial_text}
use agenticlinux.Sdboot.{parse_trial, trial_text}
use agenticlinux.Sdboot.Files.{
  staged_dir, trial_path, trial_tmp, state_dir, join, write_trial, save_trial,
}
use agenticlinux.Sdboot.Found.{rename_done}

pub rename-Keeps :
    (a b p : Text) (w : Machine)
    → equal a p ≡ false
    → equal b p ≡ false
    → Keeps p w.files (rename a b w).1.files
unfolding rename
rename-Keeps a b p w other other' = elim (Option-cases (next_fault w.faults)) [
  | inl n ↦ elim (Option-cases (lookup a w.files)) [
    | inl e ↦ rw (n, e) refl
    | inr (bytes, e) ↦ rw (n, e, lookup-insert, other', lookup-erase, other) refl
  ]
  | inr (f, n) ↦ rw n refl
]

create_dir_all_files : (d : Text) (w : Machine) → (create_dir_all d w).1.files ≡ w.files
unfolding create_dir_all
create_dir_all_files d w = ground arith

-- The paths of the record are none of the staged entries.
pub record_paths :
    (name : Text)
    → (equal trial_tmp (join staged_dir name) ≡ false)
      × (equal trial_path (join staged_dir name) ≡ false)
      × (equal (join staged_dir name) trial_path ≡ false)
unfolding equal
record_paths name = (refl, refl, refl)

-- A record that was written stands in its file, and no staged entry has changed.
write_trial_ok :
    (text name : Text) (w : Machine)
    → (write_trial text w).0 ≡ ok tt
    → (lookup trial_path (write_trial text w).1.files ≡ some (encode text))
      × Keeps (join staged_dir name) w.files (write_trial text w).1.files
unfolding write_trial
write_trial_ok text name w h =
    let (tmp, path, _) = record_paths name in
    let (_, _, h1, m1) = bind_ok (map_err (create_dir_all state_dir) _) _ w h in
    let v = (create_dir_all state_dir w).1 in
    let (_, r, h2, m2) = bind_ok (map_err (write trial_tmp (encode text)) _) _ v h1 in
    let u = (write trial_tmp (encode text) v).1 in
    let written =
      write_done trial_tmp (encode text) v
        (or_message_ok (write trial_tmp (encode text) v).0 _ r) in
    let moved = or_message_ok (rename trial_tmp trial_path u).0 _ h2 in
    let path_of = λ (p : Text) (x : Machine). lookup p x.files in
    (
      ap (path_of trial_path) (m1 ∙ m2) ∙ rename_done trial_tmp trial_path u written moved,
      ap (path_of (join staged_dir name)) (m1 ∙ m2)
          ∙ rename-Keeps trial_tmp trial_path (join staged_dir name) u tmp path
          ∙ lookup-write (join staged_dir name) trial_tmp (encode text) v tmp
          ∙ ap (lookup (join staged_dir name)) (create_dir_all_files state_dir w),
    )

-- Only safe ids are saved.
pub save_trial_safe :
    (target verity : Text) (w : Machine)
    → (save_trial target verity w).0 ≡ ok tt
    → (is_safe_id target ≡ true) × (is_safe_id verity ≡ true)
unfolding save_trial
save_trial_safe target verity w h =
    let (_, g, _, _) =
      bind_ok (lift (guard (is_safe_id target && is_safe_id verity) _))
        (λ _. write_trial (trial_text target verity)) w h in
    &&_split (is_safe_id target) (is_safe_id verity) (guard_ok _ _ g)

pub save_trial_ok :
    (target verity name : Text) (w : Machine)
    → (save_trial target verity w).0 ≡ ok tt
    → (parse_trial (trial_text target verity) ≡ some (target, verity))
      × (lookup trial_path (save_trial target verity w).1.files
          ≡ some (encode (trial_text target verity)))
      × Keeps (join staged_dir name) w.files (save_trial target verity w).1.files
unfolding save_trial
save_trial_ok target verity name w h =
    let text = trial_text target verity in
    let (_, g, h1, m) =
      bind_ok (lift (guard (is_safe_id target && is_safe_id verity) _)) (λ _. write_trial text) w
        h in
    let (t, v) = &&_split (is_safe_id target) (is_safe_id verity) (guard_ok _ _ g) in
    let (stands, keeps) = write_trial_ok text name w h1 in
    (
      parse_trial-trial_text target verity t v,
      ap (λ (x : Machine). lookup trial_path x.files) m ∙ stands,
      ap (λ (x : Machine). lookup (join staged_dir name) x.files) m ∙ keeps,
    )
