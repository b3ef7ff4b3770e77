-- ===== src/Commands/Arm.antt =====
-- `check_staged`, `cmd_preflight`, `arm_staged` and `cmd_arm` of bootguard/src/main.rs.
use agenticlinux.Prelude.{
  Bool, true, false, List, [], ◌∷◌, ◌++◌, Option, none, some, Result, ok, err,
}
use agenticlinux.Text.{Text, codes, contains}
use agenticlinux.Machine.Monad.{Machine, Io, ◌>>=◌, ◌>>◌, pure, lift}
use agenticlinux.Config.{Config}
use agenticlinux.Bootc.{Deployment}
use agenticlinux.Bootc.Commands.{System, status}
use agenticlinux.Backend.{Backend, detect, with_staged_tree, discard_arm, unstage_any}
use agenticlinux.Backend as Stack
use agenticlinux.Preflight.Findings.{fatal_messages}
use agenticlinux.Preflight.Run.{run}
use agenticlinux.Commands.{rejected_digests, load_config, notify, reject}

abbrev pub tool : Text
tool = codes "/usr/bin/agenticlinux-bootguard"

-- `list.join("; ")`
unfoldable pub join_messages : List Text → Text
join_messages [] = []
join_messages (m ∷ []) = m
join_messages (m ∷ n ∷ ms) = m ++ (codes "; " ++ join_messages (n ∷ ms))

module _ (sys : System) where
  -- The fatal messages of preflight on a staged deployment.
  unfoldable pub check_staged : Backend → Deployment → Io (List Text)
  check_staged b dep = do
    findings ← with_staged_tree sys b dep (λ tree etc. run sys tree tool etc)
    pure (fatal_messages findings)

  abbrev passes : List Text → Bool
  passes [] = true
  passes (_ ∷ _) = false

  unfoldable pub preflight_of : Option Deployment → Io Backend → Io Bool
  preflight_of none detected = pure true
  preflight_of (some staged) detected = do
    b ← detected
    fatals ← check_staged b staged
    pure (passes fatals)

  -- False is the exit status 1.
  unfoldable pub cmd_preflight : Io Bool
  cmd_preflight = do st ← status sys; preflight_of st.staged (lift (detect st))

  abbrev pub discarding : Io Bool → Io (Unit {0})
  discarding m = do _ ← m; pure tt

  unfoldable pub or_discard :
      Backend → Deployment → Result (Unit {0}) × Machine → Result (Unit {0}) × Machine
  or_discard b staged (ok _, w) = (ok tt, w)
  or_discard b staged (err e, w) = (
    err (codes "could not arm the boot counter for " ++ (staged.digest ++ (codes ": " ++ e))),
    discard_arm sys b w,
  )

  unfoldable pub arm_trial : Config → Backend → Deployment → Io (Unit {0})
  arm_trial cfg b staged w = or_discard b staged (Stack.arm sys b staged cfg.max_attempts w)

  abbrev pub rejecting : Deployment → List Text → Io (Unit {0})
  rejecting staged fatals w =
      (ok tt, reject sys staged.digest (codes "preflight failed: " ++ join_messages fatals) false w)

  unfoldable pub arm_if_passed : Config → Backend → Deployment → List Text → Io (Unit {0})
  arm_if_passed cfg b staged [] w = arm_trial cfg b staged w
  arm_if_passed cfg b staged (m ∷ ms) w =
      (discarding (Stack.unstage sys b) >> rejecting staged (m ∷ ms)) w

  unfoldable pub check_and_arm : Config → Backend → Deployment → Bool → Io (Unit {0})
  check_and_arm cfg b staged true w =
      (check_staged b staged >>= λ fatals. arm_if_passed cfg b staged fatals) w
  check_and_arm cfg b staged false w = arm_trial cfg b staged w

  unfoldable pub arm_unless_rejected : Config → Backend → Deployment → Bool → Io (Unit {0})
  arm_unless_rejected cfg b staged true w = discarding (Stack.unstage sys b) w
  arm_unless_rejected cfg b staged false w = check_and_arm cfg b staged cfg.preflight w

  unfoldable pub arm_found : Config → Backend → Option Deployment → Io (Unit {0})
  arm_found cfg b none w = (ok tt, w)
  arm_found cfg b (some staged) w =
      let (digests, w1) = rejected_digests w in
      arm_unless_rejected cfg b staged (contains digests staged.digest) w1

  -- Checks the staged deployment and starts its trial; an error says that it cannot be guarded.
  unfoldable pub arm_staged : Config → Io (Unit {0})
  arm_staged cfg = do st ← status sys; b ← lift (detect st); arm_found cfg b st.staged

  abbrev pub told : Text → Bool → Io (Unit {0})
  told e true w = (ok tt, notify (codes "The update was not applied: " ++ e) w)
  told e false w = (ok tt, w)

  -- The stack may be what failed to be detected, so the deployment of either is dropped.
  unfoldable pub or_drop : Result (Unit {0}) × Machine → Result (Unit {0}) × Machine
  or_drop (ok _, w) = (ok tt, w)
  or_drop (err e, w) = (unstage_any sys >>= told e) w

  unfoldable pub arm_if : Config → Bool → Io (Unit {0})
  arm_if cfg true w = or_drop (arm_staged cfg w)
  arm_if cfg false w = (ok tt, w)

  unfoldable pub cmd_arm : Io (Unit {0})
  cmd_arm w = let (cfg, w1) = load_config w in arm_if cfg cfg.enabled w1
