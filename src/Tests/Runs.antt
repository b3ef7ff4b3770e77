-- ===== src/Tests/Runs.antt =====
-- Runs of the commands `arm`, `watch` and of what they build on.
use agenticlinux.Prelude.{
  Result, leb, true, if◌then◌else◌, ℕ, suc, ◌*◌, ◌+◌, ◌≡◌, ◌≤◌, refl, arith, [], ok, some, none,
  true,
}
use agenticlinux.Text.{Text, codes}
use agenticlinux.Tests.Boots.{system, machine}
use agenticlinux.Bootc.Commands.{System}
use agenticlinux.Sys.Deadline.{Child, Waited, wait_deadline}
use agenticlinux.Sys.Deadline.{Outcome, returns, hangs, capture_within}
use agenticlinux.Sys.CaptureLaws.{Blocked, Captured, capture_within-Captured}
use agenticlinux.Sys.DeadlineLaws.{Ends, wait_deadline-Ends}
use agenticlinux.Commands.{load_config}
use agenticlinux.Commands.Arm.{cmd_arm}
use agenticlinux.Commands.ArmLaws.{Closed, cmd_arm-Closed}
use agenticlinux.Commands.Watch.{World}

-- A child that never ends, and a clock that has 100 ms in each round.
abbrev hung : Child
hung = record {
  try_wait = λ n. ok none;
  elapsed = λ n. 100 * n;
  reaped = true;
  output = some (ok []);
}

advances : (n : ℕ) → 100 * n + 100 ≤ 100 * suc n
advances n = omega arith

wait_deadline-Ends_example :
    (out : Waited) × (last : ℕ) × (wait_deadline hung 250 ≡ some out) × Ends hung 250 out last
wait_deadline-Ends_example = wait_deadline-Ends hung 250 advances

-- A second in each round, and nobody confirms the trial.
abbrev still : World
still = record { elapsed = λ n. n; meanwhile = λ n w. w }

-- bootc reports the image `b`, staged, beside the booted one.
abbrev staged_system : System
staged_system = record system {
  from_json = λ _. ok (record {
    status = some (record {
      booted = some (record {
        image = some (record { image_digest = some (codes "a") });
        ostree = none;
        composefs = none;
      });
      staged = some (record {
        image = some (record { image_digest = some (codes "b") });
        ostree =
            some (record { checksum = some (codes "c"); deploy_serial = some 0; stateroot = none });
        composefs = none;
      });
      rollback = none;
    });
  });
}

enabled : (load_config machine).0.enabled ≡ true
unfolding load_config agenticlinux.Config.load agenticlinux.Machine.Fs.read_to_string
enabled = refl

cmd_arm-Closed_example :
    Closed staged_system
      (load_config machine).0
      (load_config machine).1
      (cmd_arm staged_system machine)
cmd_arm-Closed_example = cmd_arm-Closed staged_system (λ _ _ _. refl) machine enabled

-- A child that ends well at the third look.
abbrev quick : Child
quick = record {
  try_wait = λ n. if leb 2 n then ok (some (record { success = true; shown = [] })) else ok none;
  elapsed = λ n. 100 * n;
  reaped = true;
  output = some (ok (codes "hi"));
}

capture_within-Captured_example :
    (out : Outcome (Result Text)) × (capture_within (codes "echo") [] (ok quick) 5 ≡ some out)
    × (out ≡ hangs → Blocked quick (1000 * 5))
    × ((text : Text) → out ≡ returns (ok text) → Captured quick (1000 * 5) text)
capture_within-Captured_example = capture_within-Captured quick advances (codes "echo") [] 5
