-- ===== src/Tests/Entries.antt =====
-- The entries of systemd-boot: one armed, and one marked bad.
use agenticlinux.Prelude.{◌∷◌, [], ◌≡◌, refl, arith, ok, some, true}
use agenticlinux.Text.{Text, codes}
use agenticlinux.Utf8.{Bytes, encode}
use agenticlinux.Tests.Hosts.{quiet_host}
use agenticlinux.Machine.Monad.{Machine}
use agenticlinux.Bootc.{Deployment}
use agenticlinux.Sdboot.Files.{entries_dir, staged_dir, mark_bad, arm}
use agenticlinux.Sdboot.Bad.{HasNoTries, mark_bad-HasNoTries}
use agenticlinux.Sdboot.Armed.{Armed, arm-Armed}

abbrev machine : Machine
machine = record {
  files =
      (codes "/boot/loader/entries/README", 255 ∷ [])
      ∷ (
        codes "/boot/loader/entries/a+2-1.conf",
        encode (codes "title a\noptions rw composefs=?aa\n"),
      )
      ∷ (codes "/boot/loader/entries.staged/b.conf", encode (codes "options composefs=bb\n"))
      ∷ (
        codes "/sys/firmware/efi/efivars/LoaderFeatures-4a67b082-0a4c-41cf-b6c7-440b29bb8c4f",
        6 ∷ 0 ∷ 0 ∷ 0 ∷ 16 ∷ 0 ∷ 0 ∷ 0 ∷ 0 ∷ 0 ∷ 0 ∷ 0 ∷ [],
      )
      ∷ [];
  dirs = entries_dir ∷ staged_dir ∷ [];
  faults = [];
  log = [];
}

abbrev staged : Deployment
staged = record {
  digest = codes "sha256:b";
  checksum = [];
  serial = 0;
  stateroot = codes "default";
  verity = some (codes "bb");
  loader = some (codes "systemd");
}

mark_ok : (mark_bad quiet_host (codes "aa") machine).0 ≡ ok true
unfolding mark_bad agenticlinux.Sdboot.Files.find_entry agenticlinux.Machine.Fs.read_dir
    agenticlinux.Text.equal agenticlinux.Sdboot.Files.search agenticlinux.Text.strip_prefix
    agenticlinux.Text.has_char agenticlinux.Sdboot.Files.read_or agenticlinux.Text.ends_with
    agenticlinux.Machine.Fs.read_to_string agenticlinux.Sdboot.Files.this_or
    agenticlinux.Sdboot.entry_verity agenticlinux.Text.Split.lines
    agenticlinux.Text.Split.split_whitespace agenticlinux.Text.trim_start_matches
    agenticlinux.Sdboot.Files.mark_found agenticlinux.Sdboot.Files.mark_counted
    agenticlinux.Machine.Fs.erase agenticlinux.Machine.Fs.has_dir agenticlinux.Machine.Fs.insert
    agenticlinux.Machine.Fs.lookup agenticlinux.Machine.Fs.names_in agenticlinux.Machine.Fs.read
    agenticlinux.Machine.Fs.rename agenticlinux.Machine.Helpers.acquire
    agenticlinux.Machine.Helpers.acquire_at agenticlinux.Machine.Helpers.boot_is_ro
    agenticlinux.Machine.Helpers.mounted_ro agenticlinux.Machine.Helpers.release
    agenticlinux.Machine.Helpers.remounted agenticlinux.Machine.Helpers.status_ok
    agenticlinux.Sdboot.Files.rename_entry agenticlinux.Sdboot.Files.rename_unless
    agenticlinux.Sdboot.base_name agenticlinux.Sdboot.parse_counter agenticlinux.Sdboot.with_tries
    agenticlinux.Text.Decimal.digits_fuel agenticlinux.Text.Decimal.parse_digits
    agenticlinux.Text.Decimal.parse_nonempty agenticlinux.Text.Decimal.parse_u32
    agenticlinux.Text.Decimal.parse_unsigned agenticlinux.Text.Decimal.to_string
    agenticlinux.Text.Split.rsplit_once agenticlinux.Text.Split.split
    agenticlinux.Text.Split.split_once agenticlinux.Text.any agenticlinux.Text.find_map
    agenticlinux.Text.is_ascii_digit agenticlinux.Text.is_whitespace agenticlinux.Text.starts_with
    agenticlinux.Text.strip_suffix agenticlinux.Utf8.decode encode agenticlinux.Utf8.encode_char
    agenticlinux.Utf8.from_utf8 agenticlinux.Utf8.from_utf8_lossy agenticlinux.Utf8.lead
    agenticlinux.Utf8.step
mark_ok = refl

mark_bad-HasNoTries_example :
    HasNoTries (codes "aa") (mark_bad quiet_host (codes "aa") machine).1.files
mark_bad-HasNoTries_example =
    mark_bad-HasNoTries quiet_host (λ _ _ _. refl) (codes "aa") machine mark_ok

arm_staged_ok : (arm quiet_host staged 3 machine).0 ≡ ok tt
unfolding arm agenticlinux.Sdboot.Files.setup agenticlinux.Sdboot.Files.supports_counting
    agenticlinux.Sdboot.Files.efivar agenticlinux.Machine.Fs.read agenticlinux.Text.equal
    agenticlinux.Sdboot.features agenticlinux.Sdboot.counts_boots
    agenticlinux.Sdboot.Files.find_entry agenticlinux.Machine.Fs.read_dir
    agenticlinux.Sdboot.Files.search agenticlinux.Text.strip_prefix agenticlinux.Text.has_char
    agenticlinux.Sdboot.Files.read_or agenticlinux.Text.ends_with
    agenticlinux.Machine.Fs.read_to_string agenticlinux.Sdboot.Files.this_or
    agenticlinux.Machine.Fs.create_dir_all agenticlinux.Machine.Fs.erase
    agenticlinux.Machine.Fs.has_dir agenticlinux.Machine.Fs.insert agenticlinux.Machine.Fs.lookup
    agenticlinux.Machine.Fs.names_in agenticlinux.Machine.Fs.rename agenticlinux.Machine.Fs.write
    agenticlinux.Machine.Helpers.acquire agenticlinux.Machine.Helpers.acquire_at
    agenticlinux.Machine.Helpers.boot_is_ro agenticlinux.Machine.Helpers.mounted_ro
    agenticlinux.Machine.Helpers.release agenticlinux.Machine.Helpers.remounted
    agenticlinux.Machine.Helpers.status_ok agenticlinux.Sdboot.Files.rename_entry
    agenticlinux.Sdboot.Files.rename_unless agenticlinux.Sdboot.Files.save_trial
    agenticlinux.Sdboot.Files.write_trial agenticlinux.Sdboot.base_name
    agenticlinux.Sdboot.entry_verity agenticlinux.Sdboot.parse_counter
    agenticlinux.Sdboot.trial_text agenticlinux.Sdboot.with_tries agenticlinux.Sys.is_safe_char
    agenticlinux.Sys.is_safe_id agenticlinux.Text.Decimal.digits_fuel
    agenticlinux.Text.Decimal.parse_digits agenticlinux.Text.Decimal.parse_nonempty
    agenticlinux.Text.Decimal.parse_u32 agenticlinux.Text.Decimal.parse_unsigned
    agenticlinux.Text.Decimal.to_string agenticlinux.Text.Split.lines
    agenticlinux.Text.Split.rsplit_once agenticlinux.Text.Split.split
    agenticlinux.Text.Split.split_once agenticlinux.Text.Split.split_whitespace
    agenticlinux.Text.all agenticlinux.Text.any agenticlinux.Text.find_map
    agenticlinux.Text.is_ascii_alphanumeric agenticlinux.Text.is_ascii_digit
    agenticlinux.Text.is_whitespace agenticlinux.Text.starts_with agenticlinux.Text.strip_suffix
    agenticlinux.Text.trim_start_matches agenticlinux.Utf8.decode encode
    agenticlinux.Utf8.encode_char agenticlinux.Utf8.from_utf8 agenticlinux.Utf8.from_utf8_lossy
    agenticlinux.Utf8.lead agenticlinux.Utf8.step
arm_staged_ok = refl

arm-Armed_example : Armed staged 3 (arm quiet_host staged 3 machine).1.files
arm-Armed_example =
    arm-Armed quiet_host (λ _ _ _. refl) staged 3 machine (omega arith) arm_staged_ok
