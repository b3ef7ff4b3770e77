-- ===== src/Tests/Stages.antt =====
-- An entry of systemd-boot blessed, a trial confirmed there, and a staged deployment dropped.
use agenticlinux.Prelude.{◌∷◌, [], ◌≡◌, refl, ok, some, true, arith}
use agenticlinux.Prelude.Int.{pos}
use agenticlinux.Text.{Text, codes}
use agenticlinux.Utf8.{Bytes, encode}
use agenticlinux.Tests.Hosts.{quiet_host}
use agenticlinux.Tests.Boots.{system}
use agenticlinux.Machine.Monad.{Machine}
use agenticlinux.Machine.Fs.{lookup, exists, path_exists}
use agenticlinux.Machine.Helpers.{remove_if_exists}
use agenticlinux.Sdboot.{base_name}
use agenticlinux.Sdboot.Files.{
  entries_dir, staged_dir, staged_flag, trial_path, selected_of, pending, bless, unstage, join,
}
use agenticlinux.Sdboot.Found.{EntryAt}
use agenticlinux.Sdboot.Blessed.{bless-EntryAt}
use agenticlinux.State.{assess, trial_in_progress}
use agenticlinux.Bootc.{Deployment}
use agenticlinux.Backend.{sd_boot, trial, confirm}
use agenticlinux.Backend.Confirmed.{count_path, confirm-StillTrial}
use agenticlinux.Sdboot.Unstaged.{NothingStaged, unstage-NothingStaged}

abbrev utf16 : Text → Bytes
utf16 [] = 0 ∷ 0 ∷ []
utf16 (c ∷ s) = c ∷ 0 ∷ utf16 s

abbrev entry : Bytes
entry = encode (codes "options composefs=aa\n")

abbrev count_raw : Bytes
count_raw = 6 ∷ 0 ∷ 0 ∷ 0 ∷ utf16 (codes "\\loader\\entries\\a+2-1.conf")

-- Booted from an entry with two tries left, with another one staged.
abbrev machine : Machine
machine = record {
  files =
      (codes "/boot/loader/entries/a+2-1.conf", entry)
      ∷ (codes "/boot/loader/entries.staged/b.conf", encode (codes "options composefs=bb\n"))
      ∷ (staged_flag, [])
      ∷ (count_path, count_raw)
      ∷ (trial_path, encode (codes "target=a\nverity=aa\n"))
      ∷ [];
  dirs = entries_dir ∷ staged_dir ∷ [];
  faults = [];
  log = [];
}

counted : (pending machine).0 ≡ some (codes "a+2-1.conf", 2)
unfolding pending agenticlinux.Sdboot.Files.still_counted agenticlinux.Sdboot.Files.selected
    agenticlinux.Sdboot.Files.selected_of agenticlinux.Sdboot.Files.efivar
    agenticlinux.Machine.Fs.read agenticlinux.Text.equal agenticlinux.Sdboot.efivar_string
    agenticlinux.Sdboot.parse_counter agenticlinux.Text.strip_suffix
    agenticlinux.Sdboot.file_of_path agenticlinux.Text.Split.rsplit_once
    agenticlinux.Text.Split.split_once agenticlinux.Text.Decimal.parse_u32 exists
counted = refl

booted_entry : EntryAt entries_dir (codes "aa") machine.files (codes "a+2-1.conf")
unfolding lookup agenticlinux.Text.equal agenticlinux.Utf8.from_utf8
    agenticlinux.Sdboot.entry_verity agenticlinux.Text.Split.lines agenticlinux.Text.strip_prefix
    agenticlinux.Text.Split.split_whitespace agenticlinux.Text.trim_start_matches
booted_entry = record {
  bytes = entry;
  text = codes "options composefs=aa\n";
  stands = refl;
  reads = refl;
  boots = refl;
}

bless_ok : (bless quiet_host machine).0 ≡ ok tt
unfolding bless agenticlinux.Sdboot.Files.bless_entry pending
    agenticlinux.Sdboot.Files.still_counted agenticlinux.Sdboot.Files.selected
    agenticlinux.Sdboot.Files.selected_of agenticlinux.Sdboot.Files.efivar
    agenticlinux.Machine.Fs.read agenticlinux.Text.equal agenticlinux.Sdboot.efivar_string
    agenticlinux.Sdboot.parse_counter agenticlinux.Text.strip_suffix
    agenticlinux.Sdboot.file_of_path agenticlinux.Text.Split.rsplit_once
    agenticlinux.Text.Split.split_once agenticlinux.Text.Decimal.parse_u32 exists
    agenticlinux.Machine.Fs.erase agenticlinux.Machine.Fs.has_dir agenticlinux.Machine.Fs.insert
    lookup agenticlinux.Machine.Fs.read_to_string agenticlinux.Machine.Fs.rename
    agenticlinux.Machine.Helpers.acquire agenticlinux.Machine.Helpers.acquire_at
    agenticlinux.Machine.Helpers.boot_is_ro agenticlinux.Machine.Helpers.mounted_ro
    agenticlinux.Machine.Helpers.release agenticlinux.Machine.Helpers.remounted
    agenticlinux.Machine.Helpers.status_ok agenticlinux.Sdboot.Files.rename_entry
    agenticlinux.Sdboot.Files.rename_unless base_name agenticlinux.Sdboot.from_utf16_after
    agenticlinux.Sdboot.payload agenticlinux.Sdboot.units agenticlinux.Sdboot.until_zero
    agenticlinux.Text.Decimal.parse_digits agenticlinux.Text.Decimal.parse_nonempty
    agenticlinux.Text.Decimal.parse_unsigned agenticlinux.Text.Split.lines
    agenticlinux.Text.Split.split agenticlinux.Text.any agenticlinux.Text.is_ascii_digit
    agenticlinux.Text.strip_prefix agenticlinux.Utf8.decode encode agenticlinux.Utf8.encode_char
    agenticlinux.Utf8.from_utf8 agenticlinux.Utf8.from_utf8_lossy agenticlinux.Utf8.lead
    agenticlinux.Utf8.step
bless_ok = refl

bless-EntryAt_example :
    EntryAt entries_dir
      (codes "aa")
      (bless quiet_host machine).1.files
      (base_name (codes "a+2-1.conf"))
bless-EntryAt_example =
    bless-EntryAt quiet_host (λ _ _ _. refl) (codes "aa") (codes "a+2-1.conf") 2 machine counted
      booted_entry bless_ok

unstage_ok : (unstage quiet_host machine).0 ≡ ok true
unfolding unstage remove_if_exists agenticlinux.Text.equal agenticlinux.Sdboot.Files.drop_staged
    path_exists exists agenticlinux.Machine.Helpers.acquire agenticlinux.Text.Split.lines
    agenticlinux.Sdboot.Files.remove_staged agenticlinux.Machine.Fs.remove_dir_all
unstage_ok = refl

staged_there : (path_exists staged_dir (remove_if_exists staged_flag machine).1).0 ≡ true
unfolding path_exists exists remove_if_exists agenticlinux.Text.equal
staged_there = refl

unstage-NothingStaged_example : NothingStaged (unstage quiet_host machine).1.files
unstage-NothingStaged_example =
    unstage-NothingStaged quiet_host (λ _ _ _. refl) machine
      (λ missing. absurd (cc (missing, staged_there))) unstage_ok

abbrev booted : Deployment
booted = record {
  digest = codes "a";
  checksum = [];
  serial = 0;
  stateroot = codes "default";
  verity = some (codes "aa");
  loader = some (codes "systemd");
}

raw_stands : lookup count_path machine.files ≡ some count_raw
unfolding lookup agenticlinux.Text.equal
raw_stands = refl

raw_counted : selected_of (some count_raw) ≡ some (codes "a+2-1.conf", 2)
unfolding selected_of agenticlinux.Text.equal agenticlinux.Sdboot.efivar_string
    agenticlinux.Sdboot.parse_counter agenticlinux.Text.strip_suffix
    agenticlinux.Sdboot.file_of_path agenticlinux.Text.Split.rsplit_once
    agenticlinux.Text.Split.split_once agenticlinux.Text.Decimal.parse_u32
raw_counted = refl

confirmed : let r = confirm system sd_boot machine in (r.0 ≡ ok tt) × (r.1.faults ≡ [])
unfolding confirm agenticlinux.Backend.forget agenticlinux.Backend.after_forget
    agenticlinux.Sdboot.Files.clear_trial remove_if_exists bless
    agenticlinux.Sdboot.Files.bless_entry pending agenticlinux.Text.equal
    agenticlinux.Sdboot.Files.still_counted agenticlinux.Sdboot.Files.selected selected_of
    agenticlinux.Sdboot.Files.efivar agenticlinux.Machine.Fs.read agenticlinux.Sdboot.efivar_string
    agenticlinux.Sdboot.parse_counter agenticlinux.Text.strip_suffix
    agenticlinux.Sdboot.file_of_path agenticlinux.Text.Split.rsplit_once
    agenticlinux.Text.Split.split_once agenticlinux.Text.Decimal.parse_u32 exists
    agenticlinux.Sdboot.Files.rename_entry agenticlinux.Sdboot.Files.rename_unless base_name
    agenticlinux.Machine.Fs.erase agenticlinux.Machine.Fs.has_dir agenticlinux.Machine.Fs.insert
    lookup agenticlinux.Machine.Fs.read_to_string agenticlinux.Machine.Fs.remove_file
    agenticlinux.Machine.Fs.rename agenticlinux.Machine.Helpers.acquire
    agenticlinux.Machine.Helpers.acquire_at agenticlinux.Machine.Helpers.boot_is_ro
    agenticlinux.Machine.Helpers.mounted_ro agenticlinux.Machine.Helpers.release
    agenticlinux.Machine.Helpers.remounted agenticlinux.Machine.Helpers.status_ok
    agenticlinux.Sdboot.from_utf16_after agenticlinux.Sdboot.payload agenticlinux.Sdboot.units
    agenticlinux.Sdboot.until_zero agenticlinux.Text.Decimal.parse_digits
    agenticlinux.Text.Decimal.parse_nonempty agenticlinux.Text.Decimal.parse_unsigned
    agenticlinux.Text.Split.lines agenticlinux.Text.Split.split agenticlinux.Text.any
    agenticlinux.Text.is_ascii_digit agenticlinux.Text.starts_with agenticlinux.Text.strip_prefix
    agenticlinux.Utf8.decode encode agenticlinux.Utf8.encode_char agenticlinux.Utf8.from_utf8
    agenticlinux.Utf8.from_utf8_lossy agenticlinux.Utf8.lead agenticlinux.Utf8.step
confirmed = (refl, refl)

confirm-StillTrial_example :
    ((trial sd_boot booted (confirm system sd_boot machine).1).0
      ≡ ok (some (pos 2), some (codes "a")))
    × (assess (some (pos 2)) (some (codes "a")) (codes "a") ≡ trial_in_progress)
confirm-StillTrial_example =
    confirm-StillTrial system (λ _ _ _. refl) booted machine count_raw raw_stands raw_counted
      (omega arith) confirmed.0 confirmed.1
