-- ===== src/Tests/Trials.antt =====
-- Arming a trial on GRUB, with /boot mounted read-only.
use agenticlinux.Prelude.Int.{pos}
use agenticlinux.Bootc.{Deployment}
use agenticlinux.Backend.{grub, trial}
use agenticlinux.Backend.ArmTrial.{arm-trial}
use agenticlinux.Prelude.{◌++◌, ◌∷◌, [], ◌≡◌, refl, arith, ok, replicate, length, none, some, true}
use agenticlinux.Text.{Text, codes}
use agenticlinux.Utf8.{Bytes, encode}
use agenticlinux.Tests.Hosts.{quiet_host}
use agenticlinux.Machine.Monad.{Machine}
use agenticlinux.Machine.Fs.{lookup, next_fault}
use agenticlinux.Grubenv.{Env, header, parse}
use agenticlinux.Sys.{is_safe_id}
use agenticlinux.Grub.{grubenv, grub_cfg, arm, clear_trial, update_env}
use agenticlinux.Grub as Grub
use agenticlinux.Grub.Operations.{after, none_yet, arming, clearing, Operations-HasSize}
use agenticlinux.Backend.Refines.{
  no_trial, on_trial, Holds, told, start, and_then, armed, trial-told,
}
use agenticlinux.Grub.InPlace.{HasSize, update_env-HasSize}
use agenticlinux.Grub.Trial.{TellsTrial, arm-TellsTrial}

abbrev empty_block : Bytes
empty_block = encode header ++ replicate 70 b'#'

abbrev pub machine : Machine
machine = record {
  files =
      (codes "/proc/self/mountinfo", encode (codes "36 1 8:2 / /boot ro,relatime\n"))
      ∷ (grub_cfg, encode (codes "\tsource ${prefix}/custom.cfg\n"))
      ∷ (grubenv, empty_block)
      ∷ [];
  dirs = [];
  faults = [];
  log = [];
}

parse_empty : parse empty_block ≡ ok (record { vars = [] })
unfolding parse agenticlinux.Text.strip_prefix agenticlinux.Utf8.from_utf8_lossy encode
    agenticlinux.Text.starts_with
parse_empty = refl

lookup-grubenv : lookup grubenv machine.files ≡ some empty_block
unfolding lookup agenticlinux.Text.equal
lookup-grubenv = refl

safe : is_safe_id (codes "sha256:aa") ≡ true
unfolding is_safe_id
safe = refl

arm_ok : (arm quiet_host (codes "sha256:aa") 3 machine).0 ≡ ok tt
unfolding arm agenticlinux.Grub.setup agenticlinux.Machine.Fs.read_to_string
    agenticlinux.Grub.install agenticlinux.Grub.sources_custom_cfg agenticlinux.Text.Split.lines
    agenticlinux.Text.Split.split_whitespace agenticlinux.Grub.unless_present
    agenticlinux.Grub.snippet_present agenticlinux.Grub.install_snippet
    agenticlinux.Machine.Helpers.read_or_empty agenticlinux.Machine.Helpers.acquire
    agenticlinux.Text.Split.split agenticlinux.Machine.Fs.write
    agenticlinux.Machine.Helpers.freeze_thaw agenticlinux.Machine.Helpers.release update_env
    Grub.armed agenticlinux.Grub.edit_env agenticlinux.Grub.has_snippet
    agenticlinux.Grubenv.File.read_file agenticlinux.Grubenv.File.write_in_place
    agenticlinux.Grubenv.contents agenticlinux.Grubenv.escape agenticlinux.Grubenv.lines_vars parse
    agenticlinux.Grubenv.scan agenticlinux.Grubenv.serialize agenticlinux.Grubenv.serialize_vars
    agenticlinux.Grubenv.set agenticlinux.Grubenv.set_in agenticlinux.Machine.Fs.insert lookup
    agenticlinux.Machine.Fs.overwrite agenticlinux.Machine.Fs.read
    agenticlinux.Machine.Fs.write_all_at agenticlinux.Machine.Helpers.acquire_at
    agenticlinux.Machine.Helpers.after_freeze agenticlinux.Machine.Helpers.after_open
    agenticlinux.Machine.Helpers.boot_is_ro agenticlinux.Machine.Helpers.mounted_ro
    agenticlinux.Machine.Helpers.remounted agenticlinux.Machine.Helpers.status_ok
    agenticlinux.Machine.Helpers.thaw agenticlinux.State.block agenticlinux.State.mark_begin
    agenticlinux.State.mark_end agenticlinux.State.merge_custom_cfg agenticlinux.State.skip_newline
    agenticlinux.State.snippet agenticlinux.Text.Decimal.digits_fuel
    agenticlinux.Text.Decimal.to_string agenticlinux.Text.Split.split_once agenticlinux.Text.any
    agenticlinux.Text.ends_with agenticlinux.Text.equal agenticlinux.Text.find
    agenticlinux.Text.has_char agenticlinux.Text.has_text agenticlinux.Text.is_whitespace
    agenticlinux.Text.starts_with agenticlinux.Text.strip_prefix agenticlinux.Text.trim_end_matches
    agenticlinux.Text.trim_matches agenticlinux.Text.trim_start_matches agenticlinux.Utf8.decode
    encode agenticlinux.Utf8.encode_char agenticlinux.Utf8.from_utf8
    agenticlinux.Utf8.from_utf8_lossy agenticlinux.Utf8.lead agenticlinux.Utf8.step
arm_ok = refl

arm-TellsTrial_example :
    (new : Bytes) × (env : Env) × (lookup grubenv
        (arm quiet_host (codes "sha256:aa") 3 machine).1.files
      ≡ some new)
    × (length new ≡ length empty_block)
    × (parse new ≡ ok env)
    × TellsTrial (codes "sha256:aa") 3 env
arm-TellsTrial_example =
    arm-TellsTrial quiet_host (λ _ _. refl) (codes "sha256:aa") 3 machine empty_block
      (record { vars = [] }) safe (omega arith) lookup-grubenv parse_empty tt arm_ok

update_env-HasSize_example :
    HasSize 95 (update_env quiet_host (Grub.armed (codes "sha256:aa") 3) machine).1.files
unfolding encode
update_env-HasSize_example =
    update_env-HasSize quiet_host (λ _ _. refl) (Grub.armed (codes "sha256:aa") 3) 95 machine
      (empty_block, lookup-grubenv, refl)

abbrev booted_other : Deployment
booted_other = record {
  digest = codes "sha256:old";
  checksum = [];
  serial = 0;
  stateroot = codes "default";
  verity = none;
  loader = none;
}

arm_calm : next_fault (arm quiet_host (codes "sha256:aa") 3 machine).1.faults ≡ none
unfolding arm agenticlinux.Grub.setup agenticlinux.Machine.Fs.read_to_string
    agenticlinux.Grub.install agenticlinux.Grub.sources_custom_cfg agenticlinux.Text.Split.lines
    agenticlinux.Text.Split.split_whitespace agenticlinux.Grub.unless_present
    agenticlinux.Grub.snippet_present agenticlinux.Grub.install_snippet
    agenticlinux.Machine.Helpers.read_or_empty agenticlinux.Machine.Helpers.acquire
    agenticlinux.Text.Split.split agenticlinux.Machine.Fs.write
    agenticlinux.Machine.Helpers.freeze_thaw agenticlinux.Machine.Helpers.release update_env
    Grub.armed agenticlinux.Grub.edit_env agenticlinux.Grub.has_snippet
    agenticlinux.Grubenv.File.read_file agenticlinux.Grubenv.File.write_in_place
    agenticlinux.Grubenv.contents agenticlinux.Grubenv.escape agenticlinux.Grubenv.lines_vars parse
    agenticlinux.Grubenv.scan agenticlinux.Grubenv.serialize agenticlinux.Grubenv.serialize_vars
    agenticlinux.Grubenv.set agenticlinux.Grubenv.set_in agenticlinux.Machine.Fs.insert lookup
    agenticlinux.Machine.Fs.overwrite agenticlinux.Machine.Fs.read
    agenticlinux.Machine.Fs.write_all_at agenticlinux.Machine.Helpers.acquire_at
    agenticlinux.Machine.Helpers.after_freeze agenticlinux.Machine.Helpers.after_open
    agenticlinux.Machine.Helpers.boot_is_ro agenticlinux.Machine.Helpers.mounted_ro
    agenticlinux.Machine.Helpers.remounted agenticlinux.Machine.Helpers.status_ok
    agenticlinux.Machine.Helpers.thaw agenticlinux.State.block agenticlinux.State.mark_begin
    agenticlinux.State.mark_end agenticlinux.State.merge_custom_cfg agenticlinux.State.skip_newline
    agenticlinux.State.snippet agenticlinux.Text.Decimal.digits_fuel
    agenticlinux.Text.Decimal.to_string agenticlinux.Text.Split.split_once agenticlinux.Text.any
    agenticlinux.Text.ends_with agenticlinux.Text.equal agenticlinux.Text.find
    agenticlinux.Text.has_char agenticlinux.Text.has_text agenticlinux.Text.is_whitespace
    agenticlinux.Text.starts_with agenticlinux.Text.strip_prefix agenticlinux.Text.trim_end_matches
    agenticlinux.Text.trim_matches agenticlinux.Text.trim_start_matches agenticlinux.Utf8.decode
    encode agenticlinux.Utf8.encode_char agenticlinux.Utf8.from_utf8
    agenticlinux.Utf8.from_utf8_lossy agenticlinux.Utf8.lead agenticlinux.Utf8.step
arm_calm = refl

arm-trial_example :
    (trial grub booted_other (arm quiet_host (codes "sha256:aa") 3 machine).1).0
    ≡ ok (some (pos 3), some (codes "sha256:aa"))
arm-trial_example =
    arm-trial quiet_host (λ _ _. refl) (codes "sha256:aa") 3 machine empty_block
      (record { vars = [] }) safe (omega arith) lookup-grubenv parse_empty tt arm_ok arm_calm
      booted_other

Operations-HasSize_example :
    HasSize 95 (clear_trial quiet_host (arm quiet_host (codes "sha256:aa") 3 machine).1).1.files
unfolding encode
Operations-HasSize_example =
    Operations-HasSize quiet_host (λ _ _. refl) 95
      (after (after none_yet (arming (codes "sha256:aa") 3)) clearing)
      (empty_block, lookup-grubenv, refl)

not_armed : Holds no_trial machine.files
unfolding agenticlinux.Grubenv.get agenticlinux.Grubenv.get_i32
not_armed = record {
  bytes = empty_block;
  env = record { vars = [] };
  is_file = lookup-grubenv;
  is_block = parse_empty;
  writable = tt;
  counter = refl;
  target = refl;
}

trial-told_example :
    (trial grub booted_other (arm quiet_host (codes "sha256:aa") 3 machine).1).0
    ≡ ok (told (on_trial (codes "sha256:aa") 3))
trial-told_example =
    trial-told quiet_host (λ _ _. refl) not_armed
      (and_then start (armed (codes "sha256:aa") 3 safe (omega arith) arm_ok)) arm_calm booted_other
