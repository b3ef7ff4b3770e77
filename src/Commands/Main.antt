-- ===== src/Commands/Main.antt =====
-- `main` of bootguard/src/main.rs: the command that the first argument names.
use agenticlinux.Prelude.{
  ℕ, Bool, true, false, List, [], ◌∷◌, Option, none, some, Result, ok, err, if◌then◌else◌,
}
use agenticlinux.Text.{Text, codes, equal}
use agenticlinux.Machine.Monad.{Machine}
use agenticlinux.Bootc.Commands.{System}
use agenticlinux.Commands.{cmd_boot, cmd_assess, cmd_clear, setup_backend}
use agenticlinux.Commands.Arm.{cmd_arm, cmd_preflight}
use agenticlinux.Commands.Check.{cmd_check, cmd_status}
use agenticlinux.Commands.Watch.{World, Watch, left, at_work, cmd_watch}

pub data Command : Type 0 where
  boot arm assess check watch preflight setup status clear : Command

-- The arms of the `match`; none is the usage.
unfoldable pub command_of : Text → Option Command
command_of s =
    if equal s (codes "boot")
    then some boot
    else if equal s (codes "arm")
    then some arm
    else if equal s (codes "assess")
    then some assess
    else if equal s (codes "check")
    then some check
    else if equal s (codes "watch")
    then some watch
    else if equal s (codes "preflight")
    then some preflight
    else if equal s (codes "setup")
    then some setup
    else if equal s (codes "status")
    then some status
    else if equal s (codes "clear")
    then some clear
    else none

-- `args().nth(1).unwrap_or_default()`
abbrev argument : List Text → Text
argument (_ ∷ a ∷ _) = a
argument _ = []

-- How the process stands: ended with an exit status, or running.
pub data Process : Type 0 where
  exit : ℕ → Machine → Process
  running : Machine → Process

abbrev ended {ℓ} : {A : Type ℓ} → Result A × Machine → Process
ended (ok _, w) = exit 0 w
ended (err e, w) = exit 1 w

abbrev ended_with : Result Bool × Machine → Process
ended_with (ok true, w) = exit 0 w
ended_with (ok false, w) = exit 1 w
ended_with (err e, w) = exit 1 w

abbrev watched : Watch → Process
watched (left w) = exit 0 w
watched (at_work w) = running w

module _ (sys : System) (world : World) (rounds : ℕ) where
  unfoldable pub dispatch : Option Command → Machine → Process
  dispatch (some boot) w = ended (cmd_boot sys w)
  dispatch (some arm) w = ended (cmd_arm sys w)
  dispatch (some assess) w = ended (cmd_assess sys w)
  dispatch (some check) w = ended (cmd_check sys w)
  dispatch (some watch) w = watched (cmd_watch sys world rounds w)
  dispatch (some preflight) w = ended_with (cmd_preflight sys w)
  dispatch (some setup) w = ended (setup_backend sys w)
  dispatch (some status) w = ended (cmd_status sys w)
  dispatch (some clear) w = ended (cmd_clear sys w)
  dispatch none w = exit 2 w

  -- The process, after a number of rounds of the watchdog.
  unfoldable pub main : List Text → Machine → Process
  main args w = dispatch (command_of (argument args)) w
