-- ===== src/Tests/Health.antt =====
-- The health checks, the snippet's installation and a record saved and loaded.
use agenticlinux.Prelude.{◌∷◌, [], ◌≡◌, refl, ◌⊎◌, ok, some, none, true, false, List, All}
use agenticlinux.Text.{Text, codes}
use agenticlinux.Utf8.{Bytes, from_utf8}
use agenticlinux.Tests.Hosts.{quiet_host}
use agenticlinux.Tests.Boots.{system, machine, trial_boot, trial_goes_on}
use agenticlinux.Tests.Trials as Trials
use agenticlinux.Machine.Monad.{Machine}
use agenticlinux.Machine.Fs.{lookup, next_fault}
use agenticlinux.Config.{Config}
use agenticlinux.Grub.{grub_cfg, sources_custom_cfg, setup}
use agenticlinux.Grub.Installed.{HasSnippet, setup-HasSnippet}
use agenticlinux.Sdboot.Files.{save_trial, load_trial}
use agenticlinux.Sdboot.SaveLoad.{load_trial-save_trial}
use agenticlinux.Commands as Main
use agenticlinux.Commands.{load_config}
use agenticlinux.Commands.Scripts.{
  Scripts, scripts_in, merged, only_executable, collect_scripts, run_checks,
}
use agenticlinux.Commands.ScriptsLaws.{IsSorted, path_at, winner, scripts_in_lem}
use agenticlinux.Commands.ChecksLaws.{
  units_checked, WasActive, NoneFailed, HasSucceeded, run_checks-Healthy,
}
use agenticlinux.Commands.Check.{cmd_check}
use agenticlinux.Commands.CheckLaws.{Ended, cmd_check-Ended}

-- Two directories of scripts, with `20-b` in both.
abbrev scripted : Machine
scripted = record {
  files =
      (codes "/usr/lib/agenticlinux-bootguard/check/required.d/20-b", [])
      ∷ (codes "/usr/lib/agenticlinux-bootguard/check/required.d/10-a", [])
      ∷ (codes "/etc/agenticlinux-bootguard/check/required.d/20-b", [])
      ∷ [];
  dirs =
      codes "/usr/lib/agenticlinux-bootguard/check/required.d"
      ∷ codes "/etc/agenticlinux-bootguard/check/required.d"
      ∷ [];
  faults = [];
  log = [];
}

abbrev bases : List Text
bases = codes "/usr/lib/agenticlinux-bootguard" ∷ codes "/etc/agenticlinux-bootguard" ∷ []

abbrev both_scripts : List Text
both_scripts =
    codes "/usr/lib/agenticlinux-bootguard/check/required.d/10-a"
    ∷ codes "/etc/agenticlinux-bootguard/check/required.d/20-b"
    ∷ []

scripts_found :
    (scripts_in quiet_host bases (codes "check/required.d") scripted).0 ≡ ok both_scripts
unfolding scripts_in merged agenticlinux.Commands.Scripts.add_dir agenticlinux.Machine.Fs.read_dir
    agenticlinux.Text.equal only_executable agenticlinux.Text.strip_prefix
    agenticlinux.Text.has_char agenticlinux.Text.Order.before
scripts_found = refl

scripts_in_lem_example :
    (m : Scripts) × IsSorted m
    × ((j : Text) → path_at j m ≡ winner scripted bases (codes "check/required.d") j none)
    × (both_scripts
        ≡ only_executable quiet_host m (merged bases (codes "check/required.d") [] scripted).1)
scripts_in_lem_example =
    scripts_in_lem quiet_host bases (codes "check/required.d") scripted scripts_found

abbrev strict : Config
strict = record {
  enabled = true;
  preflight = true;
  max_attempts = 3;
  trial_timeout = 600;
  check_timeout = 120;
  required_units = codes "sshd.service" ∷ [];
  fail_on_failed_units = true;
}

checks_ok : (run_checks quiet_host strict scripted).0 ≡ ok tt
unfolding run_checks agenticlinux.Commands.Scripts.check_units agenticlinux.Commands.Scripts.unit_or
    agenticlinux.Machine.Helpers.systemctl agenticlinux.Commands.Scripts.check_failed_units
    agenticlinux.Machine.Helpers.capture agenticlinux.Commands.Scripts.first_line
    agenticlinux.Text.Split.lines agenticlinux.Utf8.from_utf8_lossy collect_scripts scripts_in
    merged agenticlinux.Commands.Scripts.add_dir agenticlinux.Machine.Fs.read_dir
    agenticlinux.Text.equal agenticlinux.Commands.Scripts.run_required only_executable
    agenticlinux.Commands.Scripts.insert_all agenticlinux.Commands.Scripts.insert_script
    agenticlinux.Commands.Scripts.optional_scripts agenticlinux.Commands.Scripts.run_all
    agenticlinux.Commands.Scripts.run_script agenticlinux.Machine.Fs.dirs_in
    agenticlinux.Machine.Fs.has_dir lookup agenticlinux.Machine.Fs.names_in
    agenticlinux.Machine.Helpers.status_ok agenticlinux.Sys.Executable.is_executable
    agenticlinux.Sys.Executable.runs_with agenticlinux.Text.Decimal.digits_fuel
    agenticlinux.Text.Decimal.to_string agenticlinux.Text.Order.before agenticlinux.Text.has_char
    agenticlinux.Text.is_whitespace agenticlinux.Text.strip_prefix agenticlinux.Text.trim
    agenticlinux.Text.trim_end_matches agenticlinux.Text.trim_matches
    agenticlinux.Text.trim_start_matches agenticlinux.Utf8.decode agenticlinux.Utf8.lead
    agenticlinux.Utf8.step Main.load_trial agenticlinux.Bootc.Commands.status
    agenticlinux.Bootc.Commands.parse_status agenticlinux.Backend.detect
    agenticlinux.Backend.detect_booted agenticlinux.Bootc.status_of agenticlinux.Backend.stack_of
    mathlib.Core.Option.bind agenticlinux.Backend.trial agenticlinux.Grub.read_env
    agenticlinux.Grubenv.File.read_file agenticlinux.Machine.Fs.read agenticlinux.Grubenv.parse
    agenticlinux.Backend.as_i32 agenticlinux.Backend.target_of agenticlinux.Bootc.conv
    agenticlinux.Grubenv.get agenticlinux.Grubenv.get_i32 agenticlinux.Grubenv.get_in
    agenticlinux.Grubenv.lines_vars agenticlinux.Grubenv.scan agenticlinux.Machine.Fs.read_to_string
    agenticlinux.Sdboot.Files.efivar load_trial agenticlinux.Sdboot.Files.selected
    agenticlinux.Sdboot.Files.selected_of agenticlinux.Sdboot.efivar_string
    agenticlinux.Sdboot.file_of_path agenticlinux.Sdboot.from_utf16_after
    agenticlinux.Sdboot.parse_counter agenticlinux.Sdboot.parse_trial agenticlinux.Sdboot.payload
    agenticlinux.Sdboot.units agenticlinux.Sdboot.until_zero agenticlinux.Text.Decimal.parse_digits
    agenticlinux.Text.Decimal.parse_i32 agenticlinux.Text.Decimal.parse_nonempty
    agenticlinux.Text.Decimal.parse_u32 agenticlinux.Text.Decimal.parse_unsigned
    agenticlinux.Text.Split.rsplit_once agenticlinux.Text.Split.split_once agenticlinux.Text.any
    agenticlinux.Text.find_map agenticlinux.Text.is_ascii_digit agenticlinux.Text.starts_with
    agenticlinux.Text.strip_suffix agenticlinux.Utf8.encode agenticlinux.Utf8.encode_char from_utf8
checks_ok = refl

run_checks-Healthy_example :
    All (WasActive quiet_host) strict.required_units
    × ((strict.fail_on_failed_units ≡ false) ⊎ NoneFailed quiet_host)
    × ((ps : List Text) × ((collect_scripts quiet_host
            (codes "check/required.d")
            (units_checked quiet_host strict scripted)).0
          ≡ ok ps)
        × All (HasSucceeded quiet_host) ps)
run_checks-Healthy_example = run_checks-Healthy quiet_host strict scripted checks_ok

setup_ok : (setup quiet_host Trials.machine).0 ≡ ok tt
unfolding setup agenticlinux.Machine.Fs.read_to_string agenticlinux.Grub.install sources_custom_cfg
    agenticlinux.Text.Split.lines agenticlinux.Text.Split.split_whitespace
    agenticlinux.Grub.unless_present agenticlinux.Grub.snippet_present
    agenticlinux.Grub.install_snippet agenticlinux.Machine.Helpers.read_or_empty
    agenticlinux.Machine.Helpers.acquire agenticlinux.Text.Split.split agenticlinux.Machine.Fs.write
    agenticlinux.Machine.Helpers.freeze_thaw agenticlinux.Machine.Helpers.release
setup_ok = refl

setup-HasSnippet_example :
    ((b : Bytes) × (t : Text) × (lookup grub_cfg Trials.machine.files ≡ some b)
      × (from_utf8 b ≡ some t)
      × (sources_custom_cfg t ≡ true))
    × HasSnippet (setup quiet_host Trials.machine).1.files
setup-HasSnippet_example = setup-HasSnippet quiet_host (λ _ _. refl) Trials.machine setup_ok

saved_ok : (save_trial (codes "sha256:aa") (codes "ab") scripted).0 ≡ ok tt
unfolding save_trial agenticlinux.Sys.is_safe_id agenticlinux.Sdboot.Files.write_trial
    agenticlinux.Machine.Fs.create_dir_all agenticlinux.Machine.Fs.write agenticlinux.Text.equal
    agenticlinux.Machine.Fs.rename
saved_ok = refl

saved_calm : next_fault (save_trial (codes "sha256:aa") (codes "ab") scripted).1.faults ≡ none
unfolding save_trial agenticlinux.Sys.is_safe_id agenticlinux.Sdboot.Files.write_trial
    agenticlinux.Machine.Fs.create_dir_all agenticlinux.Machine.Fs.write agenticlinux.Text.equal
    agenticlinux.Machine.Fs.rename
saved_calm = refl

load_trial-save_trial_example :
    (load_trial (save_trial (codes "sha256:aa") (codes "ab") scripted).1).0
    ≡ some (codes "sha256:aa", codes "ab")
load_trial-save_trial_example =
    load_trial-save_trial (codes "sha256:aa") (codes "ab") scripted saved_ok saved_calm

loaded : (Main.load_trial system machine).0 ≡ ok trial_boot
unfolding Main.load_trial agenticlinux.Bootc.Commands.status agenticlinux.Machine.Helpers.capture
    agenticlinux.Bootc.Commands.parse_status agenticlinux.Backend.detect
    agenticlinux.Backend.detect_booted agenticlinux.Bootc.status_of agenticlinux.Backend.stack_of
    mathlib.Core.Option.bind agenticlinux.Backend.trial agenticlinux.Grub.read_env
    agenticlinux.Grubenv.File.read_file agenticlinux.Machine.Fs.read Main.setup_backend
    agenticlinux.Backend.setup agenticlinux.Machine.Fs.read_to_string agenticlinux.Grub.install
    agenticlinux.Grub.sources_custom_cfg agenticlinux.Text.Split.lines
    agenticlinux.Text.Split.split_whitespace agenticlinux.Grub.unless_present
    agenticlinux.Grub.snippet_present agenticlinux.Grub.install_snippet
    agenticlinux.Machine.Helpers.read_or_empty agenticlinux.Machine.Helpers.acquire
    agenticlinux.Machine.Fs.write agenticlinux.Machine.Helpers.freeze_thaw
    agenticlinux.Machine.Helpers.release agenticlinux.Grubenv.parse agenticlinux.Text.strip_prefix
    agenticlinux.Grubenv.get_i32 agenticlinux.Grubenv.get agenticlinux.Text.Split.split_once
    agenticlinux.Text.Decimal.parse_i32 agenticlinux.Text.trim
    agenticlinux.Text.Decimal.parse_unsigned agenticlinux.Grub.setup agenticlinux.Text.equal
    agenticlinux.Utf8.from_utf8_lossy lookup
loaded = refl

check_ok : (cmd_check system machine).0 ≡ ok tt
unfolding Main.load_trial agenticlinux.Bootc.Commands.status agenticlinux.Machine.Helpers.capture
    agenticlinux.Bootc.Commands.parse_status agenticlinux.Backend.detect
    agenticlinux.Backend.detect_booted agenticlinux.Bootc.status_of agenticlinux.Backend.stack_of
    mathlib.Core.Option.bind agenticlinux.Backend.trial agenticlinux.Grub.read_env
    agenticlinux.Grubenv.File.read_file agenticlinux.Machine.Fs.read Main.setup_backend
    agenticlinux.Backend.setup agenticlinux.Machine.Fs.read_to_string agenticlinux.Grub.install
    agenticlinux.Grub.sources_custom_cfg agenticlinux.Text.Split.lines
    agenticlinux.Text.Split.split_whitespace agenticlinux.Grub.unless_present
    agenticlinux.Grub.snippet_present agenticlinux.Grub.install_snippet
    agenticlinux.Machine.Helpers.read_or_empty agenticlinux.Machine.Helpers.acquire
    agenticlinux.Machine.Fs.write agenticlinux.Machine.Helpers.freeze_thaw
    agenticlinux.Machine.Helpers.release agenticlinux.Grubenv.parse agenticlinux.Text.strip_prefix
    agenticlinux.Grubenv.get_i32 agenticlinux.Grubenv.get agenticlinux.Text.Split.split_once
    agenticlinux.Text.Decimal.parse_i32 agenticlinux.Text.trim
    agenticlinux.Text.Decimal.parse_unsigned agenticlinux.Grub.setup agenticlinux.Commands.or_guard
    agenticlinux.Commands.cmd_assess agenticlinux.Commands.act_on Main.assessment
    agenticlinux.State.assess agenticlinux.Commands.guard_trial
    agenticlinux.Machine.Fs.create_dir_all agenticlinux.Commands.load_config
    agenticlinux.Commands.start_watchdog agenticlinux.Commands.watched
    agenticlinux.Commands.is_active agenticlinux.Machine.Helpers.systemctl agenticlinux.Text.equal
    agenticlinux.Utf8.from_utf8_lossy lookup cmd_check agenticlinux.Commands.Check.goes_on
    agenticlinux.Commands.Check.check_if agenticlinux.Commands.Check.check_with
    agenticlinux.Commands.Check.judged agenticlinux.Commands.Check.confirm run_checks
    agenticlinux.Commands.Scripts.check_units agenticlinux.Commands.Scripts.check_failed_units
    collect_scripts scripts_in merged agenticlinux.Commands.Scripts.add_dir
    agenticlinux.Commands.Scripts.run_required agenticlinux.Commands.Scripts.optional_scripts
    agenticlinux.Commands.Scripts.run_hooks agenticlinux.Commands.Scripts.run_all only_executable
    agenticlinux.Machine.Helpers.retry agenticlinux.Backend.confirm agenticlinux.Backend.forget
    agenticlinux.Backend.after_forget agenticlinux.Grub.clear_trial agenticlinux.Grub.update_env
    agenticlinux.Grub.edit_env agenticlinux.Grub.cleared agenticlinux.Grubenv.File.write_in_place
    agenticlinux.Grubenv.serialize agenticlinux.Machine.Fs.write_all_at
    agenticlinux.Machine.Fs.remove_file agenticlinux.Commands.end_watchdog
    agenticlinux.Machine.Fs.read_dir agenticlinux.Config.load
check_ok = refl

cmd_check-Ended_example :
    Ended system trial_boot
      (load_config (Main.load_trial system machine).1).0
      (load_config (Main.load_trial system machine).1).1
      (cmd_check system machine).1
cmd_check-Ended_example = cmd_check-Ended system machine trial_boot loaded trial_goes_on check_ok
