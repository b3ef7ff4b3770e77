-- ===== src/Tests/Boots.antt =====
-- Boots: a trial cleared, and a trial boot guarded.
use agenticlinux.Prelude.{
  ◌++◌, ◌∷◌, [], ◌≡◌, refl, arith, ok, replicate, length, some, none, if◌then◌else◌,
}
use agenticlinux.Prelude.Int.{pos}
use agenticlinux.Text.{Text, codes, equal, has_text}
use agenticlinux.Utf8.{Bytes, encode}
use agenticlinux.Tests.Hosts.{quiet_host}
use agenticlinux.Machine.Monad.{Machine}
use agenticlinux.Machine.Fs.{lookup}
use agenticlinux.Grubenv.{Env, header, parse, get}
use agenticlinux.Grubenv.RoundTrip.{IsWritable}
use agenticlinux.State.{trial_in_progress}
use agenticlinux.Grub.{grubenv, clear_trial}
use agenticlinux.Grub.Clear.{is_ours, clear_trial_lem}
use agenticlinux.Bootc.{Raw, Entry, Img, Deployment, Status}
use agenticlinux.Bootc.Commands.{System}
use agenticlinux.Backend.{grub}
use agenticlinux.Commands.{Trial, assessment, load_trial, setup_backend, cmd_boot}
use agenticlinux.Commands.Guard.{Guarded, cmd_boot-Guarded}

abbrev trial_block : Bytes
trial_block =
    encode (header ++ codes "x=y\nbg_counter=2\nbg_target=a\nfallback=1\n") ++ replicate 10 b'#'

abbrev trial_env : Env
trial_env = record {
  vars =
      (codes "x", codes "y")
      ∷ (codes "bg_counter", codes "2")
      ∷ (codes "bg_target", codes "a")
      ∷ (codes "fallback", codes "1")
      ∷ [];
}

abbrev pub machine : Machine
machine = record { files = (grubenv, trial_block) ∷ []; dirs = []; faults = []; log = [] }

parse-trial_block : parse trial_block ≡ ok trial_env
unfolding parse agenticlinux.Text.strip_prefix agenticlinux.Utf8.from_utf8_lossy encode
    agenticlinux.Text.starts_with agenticlinux.Text.Split.split_once
parse-trial_block = refl

lookup-trial_block : lookup grubenv machine.files ≡ some trial_block
unfolding lookup equal
lookup-trial_block = refl

trial_env-IsWritable : IsWritable trial_env
unfolding agenticlinux.Text.has_char agenticlinux.Text.starts_with
trial_env-IsWritable = (
  record {
    name_scalar = omega arith;
    value_scalar = omega arith;
    no_equals = refl;
    no_newline = refl;
    no_backslash = refl;
    no_comment = refl;
  },
  (
    record {
      name_scalar = omega arith;
      value_scalar = omega arith;
      no_equals = refl;
      no_newline = refl;
      no_backslash = refl;
      no_comment = refl;
    },
    (
      record {
        name_scalar = omega arith;
        value_scalar = omega arith;
        no_equals = refl;
        no_newline = refl;
        no_backslash = refl;
        no_comment = refl;
      },
      (
        record {
          name_scalar = omega arith;
          value_scalar = omega arith;
          no_equals = refl;
          no_newline = refl;
          no_backslash = refl;
          no_comment = refl;
        },
        tt,
      ),
    ),
  ),
)

clear_ok : (clear_trial quiet_host machine).0 ≡ ok tt
unfolding clear_trial agenticlinux.Grub.update_env agenticlinux.Machine.Helpers.acquire
    agenticlinux.Text.Split.lines agenticlinux.Grub.edit_env agenticlinux.Grubenv.File.read_file
    parse agenticlinux.Text.strip_prefix agenticlinux.Grub.cleared
    agenticlinux.Grubenv.File.write_in_place agenticlinux.Grubenv.serialize
    agenticlinux.Text.starts_with agenticlinux.Text.Split.split_once
    agenticlinux.Machine.Fs.write_all_at agenticlinux.Machine.Helpers.freeze_thaw
    agenticlinux.Machine.Helpers.release
clear_ok = refl

clear_trial_lem_example :
    (new : Bytes) × (env : Env) × (lookup grubenv (clear_trial quiet_host machine).1.files
      ≡ some new)
    × (length new ≡ length trial_block)
    × (parse new ≡ ok env)
    × ((k : Text) → get env k ≡ (if is_ours k then none else get trial_env k))
clear_trial_lem_example =
    clear_trial_lem quiet_host (λ _ _. refl) machine trial_block trial_env lookup-trial_block
      parse-trial_block trial_env-IsWritable clear_ok

-- bootc reports the image `a`, booted.
abbrev pub system : System
system = record {
  host = quiet_host;
  from_json = λ _. ok (record {
    status = some (record {
      booted = some (record {
        image = some (record { image_digest = some (codes "a") });
        ostree = none;
        composefs = none;
      });
      staged = none;
      rollback = none;
    });
  });
  from_toml = λ _. ok (record { kargs = []; match_architectures = [] });
  arch = codes "x86_64";
  now = λ _. 0;
}

abbrev pub booted : Deployment
booted = record {
  digest = codes "a";
  checksum = [];
  serial = 0;
  stateroot = codes "default";
  verity = none;
  loader = none;
}

abbrev pub trial_boot : Trial
trial_boot = record {
  backend = grub;
  counter = some (pos 2);
  target = some (codes "a");
  status = record { booted = some booted; staged = none; rollback = none };
  booted = booted;
}

abbrev configured : Machine
configured = record machine {
  files = (codes "/boot/grub2/grub.cfg", codes "source custom.cfg") ∷ machine.files;
}

trial_loaded : (load_trial system (setup_backend system configured).1).0 ≡ ok trial_boot
unfolding load_trial agenticlinux.Bootc.Commands.status agenticlinux.Machine.Helpers.capture
    agenticlinux.Bootc.Commands.parse_status agenticlinux.Backend.detect
    agenticlinux.Backend.detect_booted agenticlinux.Bootc.status_of agenticlinux.Backend.stack_of
    mathlib.Core.Option.bind agenticlinux.Backend.trial agenticlinux.Grub.read_env
    agenticlinux.Grubenv.File.read_file agenticlinux.Machine.Fs.read setup_backend
    agenticlinux.Backend.setup agenticlinux.Machine.Fs.read_to_string agenticlinux.Grub.install
    agenticlinux.Grub.sources_custom_cfg agenticlinux.Text.Split.lines
    agenticlinux.Text.Split.split_whitespace agenticlinux.Grub.unless_present
    agenticlinux.Grub.snippet_present agenticlinux.Grub.install_snippet
    agenticlinux.Machine.Helpers.read_or_empty agenticlinux.Machine.Helpers.acquire
    agenticlinux.Machine.Fs.write agenticlinux.Machine.Helpers.freeze_thaw
    agenticlinux.Machine.Helpers.release parse agenticlinux.Text.strip_prefix
    agenticlinux.Grubenv.get_i32 get agenticlinux.Text.Split.split_once
    agenticlinux.Text.Decimal.parse_i32 agenticlinux.Text.trim
    agenticlinux.Text.Decimal.parse_unsigned agenticlinux.Grub.setup
trial_loaded = refl

pub trial_goes_on : assessment trial_boot ≡ trial_in_progress
unfolding assessment agenticlinux.State.assess equal
trial_goes_on = refl

boot_ok : (cmd_boot system configured).0 ≡ ok tt
unfolding cmd_boot agenticlinux.Commands.or_guard agenticlinux.Commands.cmd_assess load_trial
    agenticlinux.Bootc.Commands.status agenticlinux.Machine.Helpers.capture
    agenticlinux.Bootc.Commands.parse_status agenticlinux.Backend.detect
    agenticlinux.Backend.detect_booted agenticlinux.Bootc.status_of agenticlinux.Backend.stack_of
    mathlib.Core.Option.bind agenticlinux.Backend.trial agenticlinux.Grub.read_env
    agenticlinux.Grubenv.File.read_file agenticlinux.Machine.Fs.read
    agenticlinux.Commands.setup_backend agenticlinux.Backend.setup
    agenticlinux.Machine.Fs.read_to_string agenticlinux.Grub.install
    agenticlinux.Grub.sources_custom_cfg agenticlinux.Text.Split.lines
    agenticlinux.Text.Split.split_whitespace agenticlinux.Grub.unless_present
    agenticlinux.Grub.snippet_present agenticlinux.Grub.install_snippet
    agenticlinux.Machine.Helpers.read_or_empty agenticlinux.Machine.Helpers.acquire
    agenticlinux.Machine.Fs.write agenticlinux.Machine.Helpers.freeze_thaw
    agenticlinux.Machine.Helpers.release parse agenticlinux.Text.strip_prefix
    agenticlinux.Commands.act_on assessment agenticlinux.State.assess get
    agenticlinux.Text.Split.split_once agenticlinux.Grubenv.get_i32
    agenticlinux.Text.Decimal.parse_i32 agenticlinux.Text.trim
    agenticlinux.Text.Decimal.parse_unsigned agenticlinux.Commands.guard_trial
    agenticlinux.Machine.Fs.create_dir_all agenticlinux.Commands.load_config
    agenticlinux.Commands.start_watchdog agenticlinux.Commands.watched
    agenticlinux.Commands.is_active agenticlinux.Machine.Helpers.systemctl agenticlinux.Grub.setup
boot_ok = refl

cmd_boot-Guarded_example : Guarded system (cmd_boot system configured).1
cmd_boot-Guarded_example =
    cmd_boot-Guarded system configured trial_boot trial_loaded trial_goes_on boot_ok
