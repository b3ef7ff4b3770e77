-- ===== src/Commands/CheckLaws.antt =====
-- `cmd_check` of bootguard/src/main.rs in a trial boot: what its success means.
use agenticlinux.Prelude.{
  ◌++◌, ◌≡◌, refl, ◌∙◌, ap, sym, subst, Bool, true, false, Option, none, some, Result, ok, err,
  ok_injective,
}
use agenticlinux.Text.{Text, codes}
use agenticlinux.Machine.Monad.{Machine, bind_ok, ◌>>◌}
use agenticlinux.Machine.Helpers.{retry}
use agenticlinux.State.{
  Assessment, idle, stale, trial_in_progress, exhausted, fell_back, OnFailure, reboot, rollback_now,
  on_check_failure,
}
use agenticlinux.Config.{Config}
use agenticlinux.Bootc.{Deployment}
use agenticlinux.Bootc.Commands.{System}
use agenticlinux.Backend.{roll_back_from, forget}
use agenticlinux.Backend as Stack
use agenticlinux.Commands.{
  Trial, assessment, load_trial, load_config, reject, rejecting, rebooting, force_reboot, roll_back,
  finish_rollback,
}
use agenticlinux.Commands.Scripts.{run_checks, run_hooks}
use agenticlinux.Commands.Check.{
  goes_on, hooks, reboot_now, confirm, after_failure, fail_unless_cleared, judged, check_with,
  check_if, cmd_check,
}

goes_on-false : (a : Assessment) → goes_on a ≡ false → ¬ (a ≡ trial_in_progress)
unfolding goes_on
goes_on-false trial_in_progress e = cc e
goes_on-false idle e = cc
goes_on-false stale e = cc
goes_on-false (fell_back _) e = cc
goes_on-false (exhausted _) e = cc

goes_on-true : (a : Assessment) → goes_on a ≡ true → a ≡ trial_in_progress
unfolding goes_on
goes_on-true trial_in_progress e = refl
goes_on-true idle e = cc
goes_on-true stale e = cc
goes_on-true (fell_back _) e = cc
goes_on-true (exhausted _) e = cc

module _ (sys : System) (t : Trial) (cfg : Config) (start : Machine) where
  -- Behind the health checks, the second look at the trial, and the hooks for a failure.
  abbrev checked : Machine
  checked = (run_checks sys.host cfg start).1

  abbrev looked : Machine
  looked = (load_trial sys checked).1

  abbrev hooked : Machine
  hooked = run_hooks sys.host (codes "red.d") cfg looked

  -- The checks failed, and the trial was still in progress when it was looked at again.
  pub record HasFailed (why : Text) : Type 0 where
    pub now : Trial
    pub failed : (run_checks sys.host cfg start).0 ≡ err why
    pub read : (load_trial sys checked).0 ≡ ok now
    pub goes_on : assessment now ≡ trial_in_progress

  -- Behind the rollback on the stack, its record and notice, and the end of the trial's tracking.
  abbrev left_default : Machine
  left_default = (roll_back_from sys t.backend t.booted hooked).1

  abbrev noted : Text → Machine
  noted why = reject sys t.booted.digest (codes "health check failed: " ++ why) true left_default

  -- How the check of a trial boot ends well, from the machine on which the checks start.
  pub data Ended : Machine → Type 0 where
    -- The checks succeeded, and all of the trial's confirmation did.
    confirmed :
        (run_checks sys.host cfg start).0 ≡ ok tt
        → (confirm sys t cfg checked).0 ≡ ok tt
        → Ended (confirm sys t cfg checked).1
    -- The checks failed, but the trial was not in progress any more; nothing else is done.
    cleared :
        (why : Text) (now : Trial)
        → (run_checks sys.host cfg start).0 ≡ err why
        → (load_trial sys checked).0 ≡ ok now
        → ¬ (assessment now ≡ trial_in_progress)
        → Ended looked
    -- The checks failed and attempts remain: a reboot is asked for.
    rebooted :
        (why : Text)
        → HasFailed why
        → on_check_failure t.counter ≡ reboot
        → Ended (reboot_now sys hooked)
    -- The checks failed and no attempts remain: the failed deployment is left, the trial is not
    -- tracked any more, and a reboot is forced.
    rolled_back :
        (why : Text) (previous : Deployment)
        → HasFailed why
        → on_check_failure t.counter ≡ rollback_now
        → t.status.rollback ≡ some previous
        → (roll_back_from sys t.backend t.booted hooked).0 ≡ ok tt
        → (retry (forget sys t.backend) (noted why)).0 ≡ ok tt
        → Ended (force_reboot sys (retry (forget sys t.backend) (noted why)).1)
    -- The same with nothing to roll back to: the trial is abandoned.
    abandoned :
        (why : Text)
        → HasFailed why
        → on_check_failure t.counter ≡ rollback_now
        → t.status.rollback ≡ none
        → (Stack.confirm sys t.backend hooked).0 ≡ ok tt
        → Ended (Stack.confirm sys t.backend hooked).1

  roll_back-Ended :
      (why : Text) (r : Option Deployment)
      → HasFailed why
      → on_check_failure t.counter ≡ rollback_now
      → t.status.rollback ≡ r
      → (roll_back sys t t.booted.digest (codes "health check failed: " ++ why) r hooked).0 ≡ ok tt
      → Ended (roll_back sys t t.booted.digest (codes "health check failed: " ++ why) r hooked).1
  unfolding roll_back
  roll_back-Ended why none h c r e = abandoned why h c r e
  roll_back-Ended why (some d) h c r e =
      let reason = codes "health check failed: " ++ why in
      let (_, done, e1, m1) = bind_ok (roll_back_from sys t.backend t.booted) _ hooked e in
      let (_, _, e2, m2) =
        bind_ok (rejecting sys t.booted.digest reason)
          (λ _. retry (forget sys t.backend) >> rebooting sys) left_default e1 in
      let (_, gone, _, m3) =
        bind_ok (retry (forget sys t.backend)) (λ _. rebooting sys) (noted why) e2 in
      subst Ended (sym (m1 ∙ m2 ∙ m3)) (rolled_back why d h c r done gone)

  after_failure-Ended :
      (why : Text) (o : OnFailure)
      → HasFailed why
      → on_check_failure t.counter ≡ o
      → (after_failure sys t why o hooked).0 ≡ ok tt
      → Ended (after_failure sys t why o hooked).1
  unfolding after_failure finish_rollback
  after_failure-Ended why reboot h c e = rebooted why h c
  after_failure-Ended why rollback_now h c e = roll_back-Ended why t.status.rollback h c refl e

  fail_unless_cleared-Ended :
      (now : Trial) (why : Text) (on : Bool)
      → (run_checks sys.host cfg start).0 ≡ err why
      → (load_trial sys checked).0 ≡ ok now
      → goes_on (assessment now) ≡ on
      → (fail_unless_cleared sys t cfg why on looked).0 ≡ ok tt
      → Ended (fail_unless_cleared sys t cfg why on looked).1
  unfolding fail_unless_cleared
  fail_unless_cleared-Ended now why false failed read g e =
      cleared why now failed read (goes_on-false (assessment now) g)
  fail_unless_cleared-Ended now why true failed read g e =
      let (_, _, e1, m) =
        bind_ok (hooks sys (codes "red.d") cfg)
          (λ _. after_failure sys t why (on_check_failure t.counter)) looked e in
      let h : HasFailed why = record {
        now = now;
        failed = failed;
        read = read;
        goes_on = goes_on-true (assessment now) g;
      } in
      subst Ended (sym m) (after_failure-Ended why (on_check_failure t.counter) h refl e1)

  judged-Ended :
      (r : Result (Unit {0}))
      → (run_checks sys.host cfg start).0 ≡ r
      → (judged sys t cfg r checked).0 ≡ ok tt
      → Ended (judged sys t cfg r checked).1
  unfolding judged
  judged-Ended (ok _) r e = confirmed r e
  judged-Ended (err why) r e =
      let (now, read, e1, m) =
        bind_ok (load_trial sys)
          (λ now. fail_unless_cleared sys t cfg why (goes_on (assessment now))) checked e in
      subst Ended (sym m)
        (fail_unless_cleared-Ended now why (goes_on (assessment now)) r read refl e1)

module _ (sys : System) where
  check_if-Ended :
      (t : Trial) (on : Bool) (v : Machine)
      → on ≡ true
      → (check_if sys t on v).0 ≡ ok tt
      → Ended sys t (load_config v).0 (load_config v).1 (check_if sys t on v).1
  unfolding check_if check_with
  check_if-Ended t true v g e =
      let cfg = (load_config v).0 in
      let u = (load_config v).1 in judged-Ended sys t cfg u (run_checks sys.host cfg u).0 refl e
  check_if-Ended t false v g e = cc

  -- If `check` succeeds in a trial in progress, then the health checks succeeded and the trial was
  -- confirmed; or they failed, and the trial was not in progress any more when it was looked at again;
  -- or they failed in a trial still in progress, and then, after the hooks for a failure: attempts
  -- remain and a reboot was asked for; or none remain, the stack was rolled back from the booted
  -- deployment, the image was rejected, the trial's tracking ended and a reboot was forced; or none
  -- remain, there is nothing to roll back to, and the trial was confirmed to abandon it.
  pub cmd_check-Ended :
      (w : Machine) (t : Trial)
      → (load_trial sys w).0 ≡ ok t
      → assessment t ≡ trial_in_progress
      → (cmd_check sys w).0 ≡ ok tt
      → Ended sys t
          (load_config (load_trial sys w).1).0
          (load_config (load_trial sys w).1).1
          (cmd_check sys w).1
  unfolding cmd_check goes_on
  cmd_check-Ended w t read a e =
      let (t', read', e1, m) =
        bind_ok (load_trial sys) (λ t. check_if sys t (goes_on (assessment t))) w e in
      let same = ok_injective (sym read' ∙ read) in
      let v = (load_trial sys w).1 in
      let done =
        check_if-Ended t' (goes_on (assessment t')) v
          (ap (λ x. goes_on (assessment x)) same ∙ ap goes_on a) e1 in
      subst (λ x. Ended sys x (load_config v).0 (load_config v).1 (cmd_check sys w).1) same
        (subst (Ended sys t' (load_config v).0 (load_config v).1) (sym m) done)
