-- ===== src/Commands.antt =====
-- bootguard/src/main.rs: the records, the notices and the commands that assess a boot. Logging and
-- sleeping leave no trace here.
pub mod Guard
pub mod Arm
pub mod ArmLaws
pub mod Scripts
pub mod ScriptsLaws
pub mod ChecksLaws
pub mod Check
pub mod CheckLaws
pub mod Watch
pub mod WatchLaws
pub mod Main
use agenticlinux.Prelude.{
  ℕ, Bool, true, false, not, ◌&&◌, ◌||◌, List, [], ◌∷◌, ◌++◌, Option, none, some, Result, ok, err,
  if◌then◌else◌,
}
use agenticlinux.Prelude.Results.{ok_or}
use agenticlinux.Prelude.Int.{ℤ}
use agenticlinux.Text.{Text, codes, contains}
use agenticlinux.Text.Split.{lines, split_whitespace}
use agenticlinux.Text.Decimal.{to_string}
use agenticlinux.Utf8.{encode}
use agenticlinux.Machine.Monad.{Machine, Io, ◌>>=◌, ◌>>◌, pure, lift}
use agenticlinux.Machine.Fs.{read_to_string, write, append, create_dir_all}
use agenticlinux.Machine.Helpers.{map_err, systemctl, retry}
use agenticlinux.State.{Assessment, idle, stale, trial_in_progress, exhausted, fell_back, assess}
use agenticlinux.Config.{Config, load}
use agenticlinux.Sdboot.Files.{ok_text, state_dir}
use agenticlinux.Bootc.{Deployment, Status}
use agenticlinux.Bootc.Commands.{System, status}
use agenticlinux.Backend.{
  Backend, detect, trial, forget, confirm, roll_back_from, make_fallback_permanent,
  trial_armed_without_bootc,
}
use agenticlinux.Backend as Stack

abbrev pub run_dir : Text
run_dir = codes "/run/agenticlinux-bootguard"

unfoldable pub run_file : Text → Text
run_file name = run_dir ++ (b'/' ∷ name)

unfoldable pub state_file : Text → Text
state_file name = state_dir ++ (b'/' ∷ name)

abbrev pub watchdog : Text
watchdog = codes "agenticlinux-bootguard-watch.service"

abbrev pub motd : Text
motd = codes "/etc/motd.d/agenticlinux-bootguard"

abbrev same : Text → Text
same e = e

-- A line more; a record that cannot be written is lost.
unfoldable pub record_line : Text → Text → Machine → Machine
record_line file line w =
    ((map_err (create_dir_all state_dir) same
        >> map_err (append (state_file file) (encode (line ++ b'\n' ∷ []))) same)
      w).1

abbrev cons_word : List Text → List Text → List Text
cons_word [] ds = ds
cons_word (d ∷ _) ds = d ∷ ds

unfoldable pub first_words : List Text → List Text
first_words [] = []
first_words (l ∷ ls) = cons_word (split_whitespace l) (first_words ls)

abbrev or_empty : Option Text → Text
or_empty none = []
or_empty (some t) = t

unfoldable pub rejected_digests : Machine → List Text × Machine
rejected_digests w =
    let (r, w') = read_to_string (state_file (codes "rejected")) w in
    (first_words (lines (or_empty (ok_text r))), w')

unfoldable pub notify : Text → Machine → Machine
notify msg w = record_line (codes "last-event.txt") msg (
    (map_err (write motd (encode (msg ++ b'\n' ∷ []))) same
      ((map_err (create_dir_all (codes "/etc/motd.d")) same w).1)).1)

abbrev fate : Bool → Text
fate true = codes "rejected and rolled back"
fate false = codes "rejected before it was applied"

-- `Config::load`, with its two reads.
unfoldable pub load_config : Machine → Config × Machine
load_config w =
    let (vendor, w1) = read_to_string (codes "/usr/lib/agenticlinux-bootguard/bootguard.conf") w in
    let (admin, w2) = read_to_string (codes "/etc/agenticlinux-bootguard/bootguard.conf") w1 in
    (load (ok_text vendor) (ok_text admin), w2)

pub record Trial : Type 0 where
  pub backend : Backend
  pub counter : Option ℤ
  pub target : Option Text
  pub status : Status
  pub booted : Deployment

unfoldable pub assessment : Trial → Assessment
assessment t = assess t.counter t.target t.booted.digest

module _ (sys : System) where
  unfoldable pub note_rejected : Bool → Text → Text → Machine → Machine
  note_rejected true digest reason w = w
  note_rejected false digest reason w =
      record_line (codes "rejected") (digest ++ (b' ' ∷ (to_string (sys.now w) ++ (b' ' ∷ reason))))
        w

  unfoldable pub reject : Text → Text → Bool → Machine → Machine
  reject digest reason applied w =
      let (ds, w1) = rejected_digests w in
      notify
        (codes "The update "
          ++ (digest ++ (codes " was " ++ (fate applied ++ (codes ": " ++ reason)))))
        (note_rejected (contains ds digest) digest reason w1)

  unfoldable pub load_trial : Io Trial
  load_trial = do
    st ← status sys
    b ← lift (detect st)
    booted ← lift (ok_or st.booted (codes "no booted deployment"))
    (counter, target) ← trial b booted
    pure (record { backend = b; counter = counter; target = target; status = st; booted = booted })

  abbrev pub reboot_2 : Text
  reboot_2 = codes "reboot(2)"

  -- Three commands, each harder, and then the system call, which leaves a mark in the log.
  unfoldable pub force_reboot : Machine → Machine
  force_reboot w =
      let (_, w1) = systemctl sys.host (codes "reboot" ∷ codes "--no-block" ∷ []) w in
      let (_, w2) =
        systemctl sys.host (codes "reboot" ∷ codes "--force" ∷ codes "--no-block" ∷ []) w1 in
      let (_, w3) =
        systemctl sys.host (codes "reboot" ∷ codes "--force" ∷ codes "--force" ∷ []) w2 in
      record w3 { log = (reboot_2, []) ∷ w3.log }

  unfoldable pub watched : Bool × Machine → Result (Unit {0}) × Machine
  watched (true, w) = (ok tt, w)
  watched (false, w) = (ok tt, force_reboot w)

  unfoldable pub is_active : Bool × Machine → Bool × Machine
  is_active (true, w) = systemctl sys.host (codes "is-active" ∷ codes "--quiet" ∷ watchdog ∷ []) w
  is_active (false, w) = (false, w)

  unfoldable pub start_watchdog : Io (Unit {0})
  start_watchdog w = watched (is_active (systemctl sys.host (codes "start" ∷ watchdog ∷ []) w))

  -- Marks a trial boot and starts its watchdog, or reboots.
  unfoldable pub guard_trial : Text → Io (Unit {0})
  guard_trial digest = do
    map_err (create_dir_all run_dir) same
    map_err (write (run_file (codes "trial")) (encode digest)) same
    start_watchdog

  -- `reject`, as a step of a computation.
  abbrev pub rejecting : Text → Text → Io (Unit {0})
  rejecting target reason w = (ok tt, reject target reason true w)

  abbrev pub rebooting : Io (Unit {0})
  rebooting w = (ok tt, force_reboot w)

  unfoldable pub roll_back : Trial → Text → Text → Option Deployment → Io (Unit {0})
  roll_back t target reason none = confirm sys t.backend
  roll_back t target reason (some _) = do
    roll_back_from sys t.backend t.booted
    rejecting target reason
    retry (forget sys t.backend)
    rebooting

  unfoldable pub finish_rollback : Trial → Text → Text → Io (Unit {0})
  finish_rollback t target reason = roll_back t target reason t.status.rollback

  abbrev with_config : Io (Unit {0}) → Io (Unit {0})
  with_config k w = k (load_config w).1

  -- What each assessment asks for.
  unfoldable pub act_on : Trial → Assessment → Io (Unit {0})
  act_on t idle = pure tt
  act_on t stale = confirm sys t.backend
  act_on t trial_in_progress = with_config (guard_trial t.booted.digest)
  act_on t (fell_back target) = do
    make_fallback_permanent sys t.backend
    rejecting target
        (codes "it never completed a boot (the bootloader fell back to the previous deployment)")
    retry (forget sys t.backend)
  act_on t (exhausted target) = finish_rollback t target (codes "it used up all its boot attempts")

  unfoldable pub cmd_assess : Io (Unit {0})
  cmd_assess = do t ← load_trial; act_on t (assessment t)

  unfoldable pub setup_backend : Io (Unit {0})
  setup_backend = do st ← status sys; b ← lift (detect st); Stack.setup sys b

  unfoldable pub guard_armed : Bool × Machine → Result (Unit {0}) × Machine
  guard_armed (true, w) = guard_trial (codes "unknown") w
  guard_armed (false, w) = (ok tt, w)

  -- Where the boot could not be assessed: a trial that the boot loader tells of is guarded.
  unfoldable pub or_guard : Result (Unit {0}) → Io (Unit {0})
  or_guard (ok _) = pure tt
  or_guard (err _) = λ w. guard_armed (trial_armed_without_bootc w)

  -- `assessed.and(setup)`
  abbrev pub both_ok : Result (Unit {0}) → Result (Unit {0}) → Result (Unit {0})
  both_ok (ok _) r = r
  both_ok (err e) r = err e

  unfoldable pub cmd_boot : Io (Unit {0})
  cmd_boot w =
      let (was_set_up, w1) = setup_backend w in
      let (assessed, w2) = cmd_assess w1 in
      (or_guard assessed >> lift (both_ok assessed was_set_up)) w2

  abbrev unless_stopped : Result (Unit {0}) → Bool → Result (Unit {0})
  unless_stopped (ok _) stopped = ok tt
  unless_stopped (err e) true = ok tt
  unless_stopped (err e) false = err (codes "cannot end the trial watchdog: " ++ e)

  -- The marker, and the unit stopped: either is enough.
  unfoldable pub end_watchdog : Io (Unit {0})
  end_watchdog w =
      let (marked, w1) =
        (map_err (create_dir_all run_dir) same
            >> map_err (write (run_file (codes "confirmed")) []) same)
          w in
      let (stopped, w2) = systemctl sys.host (codes "stop" ∷ watchdog ∷ []) w1 in
      (unless_stopped marked stopped, w2)

  unfoldable pub cmd_clear : Io (Unit {0})
  cmd_clear = do st ← status sys; b ← lift (detect st); confirm sys b; end_watchdog
