-- ===== src/Commands/WatchLaws.antt =====
-- The watchdog of bootguard/src/main.rs (`cmd_watch`) does what it is for, in time.
use agenticlinux.Prelude.{ℕ, suc, ◌≤◌, ◌≡◌, List, [], ◌∷◌, if◌then◌else◌, true}
use agenticlinux.Text.{Text, codes, equal}
use agenticlinux.Machine.Monad.{Machine}
use agenticlinux.Machine.Fs.{exists}
use agenticlinux.Commands.{run_file}
use agenticlinux.Commands.Watch.{World, Watch, left, at_work}

-- How many times the system call that restarts the machine was made: it leaves a mark in the log.
unfoldable pub restarts : List (Text × List Text) → ℕ
restarts [] = 0
restarts ((prog, _) ∷ log) =
    let n = restarts log in if equal prog (codes "reboot(2)") then suc n else n

-- The watchdog has left and the trial is confirmed, or the time is over and the machine was told to
-- restart `rounds` times or more.
pub data Served (world : World) (timeout rounds : ℕ) : Watch → Type 0 where
  confirmed :
      (v : Machine)
      → exists (run_file (codes "confirmed")) v ≡ true
      → Served world timeout rounds (left v)
  rebooting :
      (n : ℕ) (v : Machine)
      → timeout ≤ world.elapsed n
      → rounds ≤ restarts v.log
      → Served world timeout rounds (at_work v)
