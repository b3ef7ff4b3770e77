-- ===== src/Backend/Confirmed.antt =====
-- `confirm` and `trial` of bootguard/src/backend.rs on systemd-boot, one after the other.
use agenticlinux.Prelude.{
  ℕ, ◌^◌, ◌<◌, ◌≡◌, refl, ◌∙◌, ap, Bool, true, false, [], Option, none, some, ok, arith,
}
use agenticlinux.Prelude.Int.{pos}
use agenticlinux.Text.{Text, codes, equal}
use agenticlinux.Text.Laws.{equal_refl}
use agenticlinux.Utf8.{Bytes}
use agenticlinux.Machine.Monad.{Machine, pure, bind_ok, bind_holds}
use agenticlinux.Machine.Fs.{lookup, read, read_to_string, rename, remove_file}
use agenticlinux.Machine.FileLaws.{lookup-erase}
use agenticlinux.Machine.Helpers.{Host, acquire, remove_if_exists}
use agenticlinux.Machine.Keeps.{Keeps, LeavesAlone, acquire-Keeps, release-Keeps}
use agenticlinux.Sdboot.{base_name}
use agenticlinux.Sdboot.Files.{
  entries_dir, trial_path, join, efivar, selected_of, selected, pending, load_trial, clear_trial,
  rename_unless, rename_entry, bless_entry, bless,
}
use agenticlinux.Sdboot.Blessed.{pending_files}
use agenticlinux.Sdboot.Record.{rename-Keeps}
use agenticlinux.Sdboot.Unstaged.{remove_file_gone}
use agenticlinux.State.{assess, trial_in_progress}
use agenticlinux.Bootc.{Deployment}
use agenticlinux.Bootc.Commands.{System}
use agenticlinux.Backend.{sd_boot, as_i32, target_of, trial, after_forget, forget, confirm}

-- Where the variable LoaderBootCountPath is read.
abbrev pub count_path : Text
count_path =
    codes "/sys/firmware/efi/efivars/LoaderBootCountPath-4a67b082-0a4c-41cf-b6c7-440b29bb8c4f"

-- No boot entry has that path.
abbrev NoEntry : Text → Type 0
NoEntry r = (name : Text) → equal (join entries_dir name) r ≡ false

count_path-NoEntry : NoEntry count_path
unfolding equal
count_path-NoEntry name = refl

trial_path-NoEntry : NoEntry trial_path
unfolding equal
trial_path-NoEntry name = refl

module _ (h : Host) (r : Text) (mount : LeavesAlone h (codes "mount") r) (no : NoEntry r) where
  rename_unless-Keeps :
      (old new : Text) (b : Bool) (w : Machine)
      → Keeps r w.files (rename_unless h entries_dir old new b w).1.files
  unfolding rename_unless
  rename_unless-Keeps old new true w = refl
  rename_unless-Keeps old new false w =
      bind_holds (λ x. Keeps r w.files x.files) (acquire h) _ w (acquire-Keeps h r mount w)
        (λ ro _.
          let v = (acquire h w).1 in
          let p = join entries_dir old in
          let q = join entries_dir new in
          release-Keeps h r mount ro (rename p q v).1
          ∙ (rename-Keeps p q r v (no old) (no new) ∙ acquire-Keeps h r mount w))

  bless_entry-Keeps :
      (p : Option (Text × ℕ)) (w : Machine) → Keeps r w.files (bless_entry h p w).1.files
  unfolding bless_entry rename_entry
  bless_entry-Keeps none w = refl
  bless_entry-Keeps (some (file, _)) w =
      rename_unless-Keeps file (base_name file) (equal file (base_name file)) w

  bless-Keeps : (w : Machine) → Keeps r w.files (bless h w).1.files
  unfolding bless
  bless-Keeps w = bless_entry-Keeps (pending w).0 (pending w).1 ∙ ap (lookup r) (pending_files w)

remove_file-Keeps :
    (p r : Text) (w : Machine) → equal p r ≡ false → Keeps r w.files (remove_file p w).1.files
unfolding remove_file
remove_file-Keeps p r w e = ground (arith, e, lookup-erase r p w.files)

as_i32_small : (n : ℕ) → n < 2 ^ 31 → as_i32 n ≡ pos n
unfolding as_i32
as_i32_small n h = ground (arith, h)

module _ (sys : System) (mount : (p : Text) → LeavesAlone sys.host (codes "mount") p) where
  -- The record is gone, and the variable is as it was.
  confirmed_files :
      (w : Machine)
      → (confirm sys sd_boot w).0 ≡ ok tt
      → (lookup trial_path (confirm sys sd_boot w).1.files ≡ none)
        × Keeps count_path w.files (confirm sys sd_boot w).1.files
  unfolding confirm after_forget forget clear_trial remove_if_exists equal
  confirmed_files w e =
      let (_, e1, _, m) = bind_ok clear_trial (λ _. bless sys.host) w e in
      let v = (remove_file trial_path w).1 in
      let (_, removed, _, m0) = bind_ok (remove_if_exists trial_path) (λ _. pure tt) w e1 in
      let at : (p : Text)
          → lookup p (confirm sys sd_boot w).1.files ≡ lookup p (bless sys.host v).1.files =
        λ p.
          ap (λ (x : Machine). lookup p x.files) m
          ∙ ap (λ (x : Machine). lookup p (bless sys.host x).1.files) m0 in
      (
        at trial_path
            ∙ (bless-Keeps sys.host trial_path (mount trial_path) trial_path-NoEntry v
                ∙ remove_file_gone trial_path w removed),
        at count_path
            ∙ (bless-Keeps sys.host count_path (mount count_path) count_path-NoEntry v
                ∙ remove_file-Keeps trial_path count_path w refl),
      )

  -- For the rest of the boot, a confirmed trial of a counted entry still reads as in progress on
  -- systemd-boot: if `confirm` succeeds and no read fails after it, `trial` gives the tries that the
  -- variable LoaderBootCountPath names and the booted image as the target, and `assess` takes that
  -- for a trial in progress; for fewer than 2^31 tries, and a `mount` that leaves every file's
  -- content alone.
  pub confirm-StillTrial :
      (booted : Deployment) (w : Machine) (raw : Bytes) {file : Text} {left : ℕ}
      → lookup count_path w.files ≡ some raw
      → selected_of (some raw) ≡ some (file, left)
      → left < 2 ^ 31
      → (confirm sys sd_boot w).0 ≡ ok tt
      → (confirm sys sd_boot w).1.faults ≡ []
      → ((trial sd_boot booted (confirm sys sd_boot w).1).0
          ≡ ok (some (pos left), some booted.digest))
        × (assess (some (pos left)) (some booted.digest) booted.digest ≡ trial_in_progress)
  unfolding trial target_of selected efivar load_trial read_to_string read assess
  confirm-StillTrial booted w raw {left = left} stands counted small done calm =
      let (gone, kept) = confirmed_files w done in
      (rw (calm, gone, kept, stands, counted, as_i32_small left small) refl, rw equal_refl refl)
