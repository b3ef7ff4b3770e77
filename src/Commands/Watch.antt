-- ===== src/Commands/Watch.antt =====
-- `cmd_watch` of bootguard/src/main.rs: the watchdog of a trial boot. The other processes are a
-- parameter: the clock at each round, and what they do to the machine during a sleep.
use agenticlinux.Prelude.{ℕ, zero, suc, Bool, true, false, ltb}
use agenticlinux.Text.{codes}
use agenticlinux.Machine.Monad.{Machine}
use agenticlinux.Machine.Fs.{exists}
use agenticlinux.Bootc.Commands.{System}
use agenticlinux.Commands.{run_file, load_config, force_reboot}

-- The seconds since the start, at the `n`-th look at the clock; the machine after the `n`-th sleep.
pub record World : Type 0 where
  pub elapsed : ℕ → ℕ
  pub meanwhile : ℕ → Machine → Machine

-- The watchdog has left, as the trial is confirmed; or it is at work still.
pub data Watch : Type 0 where
  left : Machine → Watch
  at_work : Machine → Watch

module _ (sys : System) (world : World) where
  -- The second loop never ends: the state after `rounds` of it.
  unfoldable pub reboots : ℕ → ℕ → Machine → Machine
  reboots zero n w = w
  reboots (suc rounds) n w = reboots rounds (suc n) (world.meanwhile n (force_reboot sys w))

  unfoldable pub unless_confirmed : (Machine → Watch) → Machine → Bool → Watch
  unless_confirmed next w true = left w
  unless_confirmed next w false = next w

  unfoldable pub while_early : (Machine → Watch) → (Machine → Watch) → Machine → Bool → Watch
  while_early next late w false = late w
  while_early next late w true = unless_confirmed next w (exists (run_file (codes "confirmed")) w)

  abbrev slept : (Machine → Watch) → ℕ → Machine → Watch
  slept next n w = next (world.meanwhile n w)

  -- The first loop and the second one, from the `n`-th look at the clock on, for a number of rounds.
  unfoldable pub watch_from : ℕ → ℕ → ℕ → Machine → Watch
  watch_from zero timeout n w = at_work w
  watch_from (suc rounds) timeout n w =
      while_early (slept (watch_from rounds timeout (suc n)) n)
        (λ v. at_work (reboots (suc rounds) n v)) w (ltb (world.elapsed n) timeout)

  -- What the command comes to in a number of rounds.
  unfoldable pub cmd_watch : ℕ → Machine → Watch
  cmd_watch rounds w = let (cfg, w') = load_config w in watch_from rounds cfg.trial_timeout 0 w'
