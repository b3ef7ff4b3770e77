-- ===== src/Commands/Check.antt =====
-- `reboot_now`, `confirm`, `cmd_check` and `cmd_status` of bootguard/src/main.rs.
use agenticlinux.Prelude.{
  Bool, true, false, List, [], ◌∷◌, ◌++◌, Option, none, some, Result, ok, err,
}
use agenticlinux.Text.{Text, codes}
use agenticlinux.Machine.Monad.{Machine, Io, ◌>>=◌, ◌>>◌, lift}
use agenticlinux.Machine.Fs.{remove_file}
use agenticlinux.Machine.Helpers.{retry, systemctl}
use agenticlinux.State.{
  Assessment, idle, stale, trial_in_progress, exhausted, fell_back, OnFailure, reboot, rollback_now,
  on_check_failure,
}
use agenticlinux.Config.{Config}
use agenticlinux.Bootc.{Deployment}
use agenticlinux.Bootc.Commands.{System, status}
use agenticlinux.Backend.{Backend, grub, sd_boot, detect}
use agenticlinux.Backend as Stack
use agenticlinux.Backend.Report.{report}
use agenticlinux.Commands.{
  Trial, assessment, load_trial, load_config, finish_rollback, end_watchdog, rejected_digests, motd,
}
use agenticlinux.Commands.Scripts.{run_checks, run_hooks}

-- `assessment() != Assessment::TrialInProgress`, turned round.
unfoldable pub goes_on : Assessment → Bool
goes_on trial_in_progress = true
goes_on idle = false
goes_on stale = false
goes_on (fell_back _) = false
goes_on (exhausted _) = false

module _ (sys : System) where
  unfoldable pub reboot_now : Machine → Machine
  reboot_now w = (systemctl sys.host (codes "reboot" ∷ codes "--no-block" ∷ []) w).1

  abbrev remove_motd : Io (Unit {0})
  remove_motd w = (ok tt, (remove_file motd w).1)

  abbrev pub hooks : Text → Config → Io (Unit {0})
  hooks sub cfg w = (ok tt, run_hooks sys.host sub cfg w)

  unfoldable pub confirm : Trial → Config → Io (Unit {0})
  confirm t cfg = do
    retry (Stack.confirm sys t.backend)
    remove_motd
    end_watchdog sys
    hooks (codes "green.d") cfg

  unfoldable pub after_failure : Trial → Text → OnFailure → Io (Unit {0})
  after_failure t why reboot w = (ok tt, reboot_now w)
  after_failure t why rollback_now w =
      finish_rollback sys t t.booted.digest (codes "health check failed: " ++ why) w

  -- The trial may have been cleared while the checks ran.
  unfoldable pub fail_unless_cleared : Trial → Config → Text → Bool → Io (Unit {0})
  fail_unless_cleared t cfg why false w = (ok tt, w)
  fail_unless_cleared t cfg why true w =
      (hooks (codes "red.d") cfg >> after_failure t why (on_check_failure t.counter)) w

  unfoldable pub judged : Trial → Config → Result (Unit {0}) → Io (Unit {0})
  judged t cfg (ok _) w = confirm t cfg w
  judged t cfg (err why) w =
      (load_trial sys >>= λ now. fail_unless_cleared t cfg why (goes_on (assessment now))) w

  unfoldable pub check_with : Trial → Config → Io (Unit {0})
  check_with t cfg w = let (r, w') = run_checks sys.host cfg w in judged t cfg r w'

  unfoldable pub check_if : Trial → Bool → Io (Unit {0})
  check_if t false w = (ok tt, w)
  check_if t true w = let (cfg, w') = load_config w in check_with t cfg w'

  unfoldable pub cmd_check : Io (Unit {0})
  cmd_check = do t ← load_trial sys; check_if t (goes_on (assessment t))

  abbrev digest_or_dash : Option Deployment → Text
  digest_or_dash none = codes "-"
  digest_or_dash (some d) = d.digest

  abbrev stack_name : Backend → Text
  stack_name grub = codes "ostree + GRUB"
  stack_name sd_boot = codes "composefs + systemd-boot"

  -- A list as `{:?}` prints it; the source also escapes some characters in a text.
  abbrev quoted : List Text → Text
  quoted [] = codes "]"
  quoted (d ∷ []) = b'"' ∷ (d ++ codes "\"]")
  quoted (d ∷ e ∷ ds) = b'"' ∷ (d ++ (codes "\", " ++ quoted (e ∷ ds)))

  abbrev with_rejected : List Text → Io (List Text)
  with_rejected ls w =
      let (ds, w') = rejected_digests w in
      (ok (ls ++ ((codes "rejected: [" ++ quoted ds) ∷ [])), w')

  -- The lines that it prints.
  unfoldable pub cmd_status : Io (List Text)
  cmd_status = do
    st ← status sys
    b ← lift (detect st)
    ls ← report b
    with_rejected (
        (codes "booted:   " ++ digest_or_dash st.booted)
        ∷ (codes "staged:   " ++ digest_or_dash st.staged)
        ∷ (codes "rollback: " ++ digest_or_dash st.rollback)
        ∷ (codes "backend: " ++ stack_name b)
        ∷ ls)
