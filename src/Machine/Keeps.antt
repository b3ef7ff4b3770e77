-- ===== src/Machine/Keeps.antt =====
-- Which operations leave a file as it was.
use agenticlinux.Prelude.{
  ℕ, zero, suc, ◌≡◌, refl, ◌∙◌, ap, Bool, true, false, List, [], Option, none, some,
}
use agenticlinux.Text.{Text, codes}
use agenticlinux.Machine.Monad.{Machine, Files, Io}
use agenticlinux.Machine.Fs.{lookup}
use agenticlinux.Machine.FileLaws.{read_to_string_files}
use agenticlinux.Machine.Helpers.{
  Host, call, or_retry, after_freeze, after_open, boot_is_ro, acquire_at, remounted, thaw,
  freeze_thaw, status_ok, acquire, release,
}

-- The file at `p` is the same in both.
abbrev pub Keeps : Text → Files → Files → Type 0
Keeps p fs fs' = lookup p fs' ≡ lookup p fs

-- Whatever its arguments, the command leaves the file at `p` alone.
abbrev pub LeavesAlone : Host → Text → Text → Type 0
LeavesAlone h prog p =
    (args : List Text) (w : Machine) → lookup p (h.leaves prog args w) ≡ lookup p w.files

or_retry_files :
    (again : Text → Io (Unit {0}))
    → ((m : Text) (v : Machine) → (again m v).1.files ≡ v.files)
    → (e : Option Text) (v : Machine) → (or_retry again e v).1.files ≡ v.files
or_retry_files again same none v = refl
or_retry_files again same (some m) v = same m v

thaw_files : (n : ℕ) (path last : Text) (w : Machine) → (thaw n path last w).1.files ≡ w.files
unfolding thaw
thaw_files zero path last w = refl
thaw_files (suc n) path last w =
    or_retry_files (thaw n path) (thaw_files n path) (call w).0 (call w).1

after_freeze_files :
    (e : Option Text) (path : Text) (w : Machine) → (after_freeze e path w).1.files ≡ w.files
unfolding after_freeze
after_freeze_files (some e) path w = refl
after_freeze_files none path w = thaw_files 6 path [] w

after_open_files :
    (e : Option Text) (path : Text) (w : Machine) → (after_open e path w).1.files ≡ w.files
unfolding after_open
after_open_files (some e) path w = refl
after_open_files none path w = after_freeze_files (call w).0 path (call w).1

-- Freezing and thawing changes no file, however it ends.
pub freeze_thaw_files : (path : Text) (w : Machine) → (freeze_thaw path w).1.files ≡ w.files
unfolding freeze_thaw
freeze_thaw_files path w = after_open_files (call w).0 path (call w).1

boot_is_ro_files : (w : Machine) → (boot_is_ro w).1.files ≡ w.files
unfolding boot_is_ro
boot_is_ro_files w = read_to_string_files (codes "/proc/self/mountinfo") w

module _ (h : Host) (p : Text) (mount : LeavesAlone h (codes "mount") p) where
  remounted_machine : (r : Bool × Machine) → (remounted h r).1 ≡ r.1
  unfolding remounted
  remounted_machine (true, w) = refl
  remounted_machine (false, w) = refl

  acquire_at-Keeps : (r : Bool × Machine) → Keeps p r.1.files (acquire_at h r).1.files
  unfolding acquire_at
  acquire_at-Keeps (true, w) = rw remounted_machine (unfold status_ok in mount _ w)
  acquire_at-Keeps (false, w) = refl

  pub acquire-Keeps : (w : Machine) → Keeps p w.files (acquire h w).1.files
  unfolding acquire
  acquire-Keeps w = acquire_at-Keeps (boot_is_ro w) ∙ ap (lookup p) (boot_is_ro_files w)

  pub release-Keeps : (was_ro : Bool) (w : Machine) → Keeps p w.files (release h was_ro w).files
  unfolding release status_ok
  release-Keeps true w = mount _ w
  release-Keeps false w = refl
