-- ===== src/Sdboot/Files.antt =====
-- bootguard/src/sdboot.rs: what the systemd-boot backend does with files and EFI variables. The
-- `sync` calls change no file.
use agenticlinux.Prelude.{
  ℕ, zero, suc, Bool, true, false, not, ◌&&◌, List, [], ◌∷◌, ◌++◌, Option, none, some, Result, ok,
  err, if◌then◌else◌,
}
use agenticlinux.Prelude.Results.{ok_or, guard}
use agenticlinux.Text.{Text, codes, equal, ends_with, all, is_empty, is_ascii_hexdigit}
use agenticlinux.Utf8.{Bytes, encode}
use agenticlinux.Machine.Monad.{Machine, Io, ◌>>=◌, ◌>>◌, pure, lift}
use agenticlinux.Machine.Fs.{
  IoResult, done, not_found, failed, read, read_to_string, write, rename, create_dir_all, read_dir,
  exists, path_exists, remove_dir_all,
}
use agenticlinux.Machine.Helpers.{Host, map_err, remove_if_exists, with_boot_rw, status_ok}
use agenticlinux.Sys.{is_safe_id}
use agenticlinux.Bootc.{Deployment}
use agenticlinux.Sdboot.{
  conf, parse_counter, base_name, with_tries, efivar_string, entry_verity, features, counts_boots,
  file_of_path, parse_trial, trial_text,
}

abbrev pub entries_dir : Text
entries_dir = codes "/boot/loader/entries"

abbrev pub staged_dir : Text
staged_dir = codes "/boot/loader/entries.staged"

abbrev pub staged_flag : Text
staged_flag = codes "/run/composefs/staged-deployment"

abbrev pub trial_path : Text
trial_path = codes "/var/lib/agenticlinux-bootguard/trial"

abbrev pub state_dir : Text
state_dir = codes "/var/lib/agenticlinux-bootguard"

abbrev pub trial_tmp : Text
trial_tmp = codes "/var/lib/agenticlinux-bootguard/trial.tmp"

abbrev pub staged_mnt : Text
staged_mnt = codes "/run/agenticlinux-bootguard/staged"

-- `Path::new(dir).join(name)` of a plain name.
abbrev pub join : Text → Text → Text
join dir name = dir ++ (b'/' ∷ name)

abbrev ok_bytes : IoResult Bytes → Option Bytes
ok_bytes (done b) = some b
ok_bytes not_found = none
ok_bytes (failed _) = none

abbrev pub ok_text : IoResult Text → Option Text
ok_text (done t) = some t
ok_text not_found = none
ok_text (failed _) = none

unfoldable pub efivar : Text → Machine → Option Bytes × Machine
efivar name w =
    let (r, w') =
      read
        (codes "/sys/firmware/efi/efivars/"
          ++ (name ++ codes "-4a67b082-0a4c-41cf-b6c7-440b29bb8c4f"))
        w in
    (ok_bytes r, w')

-- What the variable LoaderFeatures tells.
unfoldable pub supports_counting : Option Bytes → Result (Unit {0})
supports_counting none = err (codes "not booted by systemd-boot (no LoaderFeatures)")
supports_counting (some raw) = elim (features raw) [
  | some f ↦ guard (counts_boots f) (codes "this systemd-boot does not support boot counting")
  | none ↦ err (codes "malformed LoaderFeatures")
]

unfoldable pub setup : Io (Unit {0})
setup w = let (raw, w') = efivar (codes "LoaderFeatures") w in (supports_counting raw, w')

abbrev with_left : Text → Option (ℕ × ℕ) → Option (Text × ℕ)
with_left file none = none
with_left file (some (left, _)) = some (file, left)

abbrev counted_of : Option Text → Option (Text × ℕ)
counted_of none = none
counted_of (some path) = let file = file_of_path path in with_left file (parse_counter file)

unfoldable pub selected_of : Option Bytes → Option (Text × ℕ)
selected_of none = none
selected_of (some raw) = counted_of (efivar_string raw)

-- The counted entry that the machine booted from, and its tries left.
unfoldable pub selected : Machine → Option (Text × ℕ) × Machine
selected w = let (raw, w') = efivar (codes "LoaderBootCountPath") w in (selected_of raw, w')

unfoldable pub still_counted : Option (Text × ℕ) → Machine → Option (Text × ℕ)
still_counted none w = none
still_counted (some (file, left)) w =
    if exists (join entries_dir file) w then some (file, left) else none

unfoldable pub pending : Machine → Option (Text × ℕ) × Machine
pending w = let (sel, w') = selected w in (still_counted sel w', w')

abbrev pub cannot_read_in : Text → Text → Text
cannot_read_in path e = codes "cannot read " ++ (path ++ (codes ": " ++ e))

abbrev pub is_verity : Option Text → Text → Bool
is_verity none verity = false
is_verity (some v) verity = equal v verity

unfoldable pub this_or : Text → Io (Option Text) → Bool → Io (Option Text)
this_or name rest true = pure (some name)
this_or name rest false = rest

unfoldable pub read_or : Text → Text → Text → Io (Option Text) → Bool → Io (Option Text)
read_or dir verity name rest true = do
  text ← map_err (read_to_string (join dir name)) (cannot_read_in (join dir name))
  this_or name rest (is_verity (entry_verity text) verity)
read_or dir verity name rest false = rest

-- The loop over the names of the directory.
unfoldable pub search : Text → Text → List Text → Io (Option Text)
search dir verity [] = pure none
search dir verity (name ∷ names) =
    read_or dir verity name (search dir verity names) (ends_with name conf)

unfoldable pub find_entry : Text → Text → Io (Option Text)
find_entry dir verity = do
  names ← map_err (read_dir dir) (cannot_read_in dir)
  search dir verity names

abbrev trial_of : Option Text → Option (Text × Text)
trial_of none = none
trial_of (some t) = parse_trial t

unfoldable pub load_trial : Machine → Option (Text × Text) × Machine
load_trial w = let (r, w') = read_to_string trial_path w in (trial_of (ok_text r), w')

unfoldable pub clear_trial : Io (Unit {0})
clear_trial = do _ ← remove_if_exists trial_path; pure tt

abbrev cannot_write_trial : Text → Text
cannot_write_trial e = codes "write " ++ (trial_path ++ (codes ": " ++ e))

-- Three steps: a new file takes the place of the old record.
unfoldable pub write_trial : Text → Io (Unit {0})
write_trial text = do
  map_err (create_dir_all state_dir) cannot_write_trial
  map_err (write trial_tmp (encode text)) cannot_write_trial
  map_err (rename trial_tmp trial_path) cannot_write_trial

-- The message quotes the two ids as they are; the source escapes some characters in them.
unfoldable pub save_trial : Text → Text → Io (Unit {0})
save_trial target verity =
    lift (
      guard (is_safe_id target && is_safe_id verity) (
        codes "unexpected deployment id \""
        ++ (target ++ (codes "\" / \"" ++ (verity ++ codes "\"")))))
    >> write_trial (trial_text target verity)

unfoldable pub remove_staged : Io (Unit {0})
remove_staged =
    map_err (remove_dir_all staged_dir) (λ e. codes "remove " ++ (staged_dir ++ (codes ": " ++ e)))

-- The merged /etc of a deployment.
abbrev pub state_etc : Text → Text
state_etc verity = codes "/sysroot/state/deploy/" ++ (verity ++ codes "/etc")

module _ (h : Host) where
  unfoldable pub rename_unless : Text → Text → Text → Bool → Io (Unit {0})
  rename_unless dir old new true = pure tt
  rename_unless dir old new false = with_boot_rw h (
      map_err (rename (join dir old) (join dir new))
        (λ e. codes "rename " ++ (old ++ (codes " to " ++ (new ++ (codes ": " ++ e))))))

  unfoldable pub rename_entry : Text → Text → Text → Io (Unit {0})
  rename_entry dir old new = rename_unless dir old new (equal old new)

  -- Gives the staged entry its tries; bootc installs it at shutdown.
  unfoldable pub arm : Deployment → ℕ → Io (Unit {0})
  arm staged attempts = do
    setup
    verity ← lift (ok_or staged.verity (codes "staged deployment has no composefs id"))
    found ← find_entry staged_dir verity
    file ← lift (ok_or found (codes "no staged boot entry for " ++ verity))
    save_trial staged.digest verity
    rename_entry staged_dir file (with_tries file attempts none)

  unfoldable pub bless_entry : Option (Text × ℕ) → Io (Unit {0})
  bless_entry none = pure tt
  bless_entry (some (file, _)) = rename_entry entries_dir file (base_name file)

  -- Strips the counter of the entry that was booted.
  unfoldable pub bless : Io (Unit {0})
  bless w = let (p, w') = pending w in bless_entry p w'

  unfoldable pub mark_counted : Text → Option (ℕ × ℕ) → Io Bool
  mark_counted file (some (zero, _)) = pure true
  mark_counted file (some (suc _, tried)) =
      rename_entry entries_dir file (with_tries file 0 (some tried)) >> pure true
  mark_counted file none = rename_entry entries_dir file (with_tries file 0 none) >> pure true

  unfoldable pub mark_found : Option Text → Io Bool
  mark_found none = pure false
  mark_found (some file) = mark_counted file (parse_counter file)

  -- No tries are left for the entry of the deployment; false if it has none.
  unfoldable pub mark_bad : Text → Io Bool
  mark_bad verity = do found ← find_entry entries_dir verity; mark_found found

  unfoldable pub drop_staged : Bool → Io (Unit {0})
  drop_staged true = with_boot_rw h remove_staged
  drop_staged false = pure tt

  -- Drops the staged deployment: was there one?
  unfoldable pub unstage : Io Bool
  unstage = do
    was ← remove_if_exists staged_flag
    (λ w. let (there, w') = path_exists staged_dir w in drop_staged there w')
    pure was

  abbrev mounted : Text → Bool × Machine → Result Text × Machine
  mounted image (true, w) = (ok staged_mnt, w)
  mounted image (false, w) = (err (codes "cannot mount the staged image " ++ image), w)

  abbrev mount_image : Text → Io Text
  mount_image image w = mounted image (
      status_ok h (codes "mount.composefs")
        (image ∷ staged_mnt ∷ codes "-o" ∷ codes "basedir=/sysroot/composefs/objects" ∷ []) w)

  -- `StagedTree::mount`: where the staged image is mounted.
  unfoldable pub mount_staged : Text → Io Text
  mount_staged verity = do
    lift (
        guard (not (is_empty verity) && all is_ascii_hexdigit verity)
          (codes "unexpected composefs id \"" ++ (verity ++ codes "\"")))
    map_err (create_dir_all staged_mnt) (λ e. codes "create " ++ (staged_mnt ++ (codes ": " ++ e)))
    mount_image (codes "/sysroot/composefs/images/" ++ verity)

  -- `drop` of a `StagedTree`.
  unfoldable pub unmount_staged : Machine → Machine
  unmount_staged w = (status_ok h (codes "umount") (staged_mnt ∷ []) w).1
