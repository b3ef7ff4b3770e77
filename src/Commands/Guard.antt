-- ===== src/Commands/Guard.antt =====
-- `guard_trial`, `cmd_assess` and `cmd_boot` of bootguard/src/main.rs, for a boot that is a trial.
use agenticlinux.Prelude.{
  ◌≡◌, refl, ◌∙◌, ap, sym, subst, Bool, true, false, [], ◌∷◌, Result, ok, err, ok_injective,
}
use agenticlinux.Text.{Text, codes}
use agenticlinux.Machine.Monad.{Machine, bind_ok, lift, ◌>>◌}
use agenticlinux.Machine.Fs.{write, create_dir_all}
use agenticlinux.Machine.Helpers.{systemctl, map_err}
use agenticlinux.State.{Assessment, trial_in_progress}
use agenticlinux.Bootc.Commands.{System}
use agenticlinux.Commands.{
  Trial, assessment, watchdog, load_trial, watched, is_active, start_watchdog, guard_trial, act_on,
  cmd_assess, cmd_boot, setup_backend, or_guard, both_ok, force_reboot, load_config, run_dir,
  run_file,
}

module _ (sys : System) where
  -- The last thing that happened is that systemd called the watchdog active, or a forced reboot.
  pub data Guarded : Machine → Type 0 where
    watching :
        (w : Machine)
        → (systemctl sys.host (codes "is-active" ∷ codes "--quiet" ∷ watchdog ∷ []) w).0 ≡ true
        → Guarded (systemctl sys.host (codes "is-active" ∷ codes "--quiet" ∷ watchdog ∷ []) w).1
    rebooted : (w : Machine) → Guarded (force_reboot sys w)

  watched-Guarded : (r : Bool × Machine) → (r.0 ≡ true → Guarded r.1) → Guarded (watched sys r).1
  unfolding watched
  watched-Guarded (true, w) h = h refl
  watched-Guarded (false, w) h = rebooted w

  is_active-Guarded :
      (r : Bool × Machine) → (is_active sys r).0 ≡ true → Guarded (is_active sys r).1
  unfolding is_active
  is_active-Guarded (true, w) h = watching w h
  is_active-Guarded (false, w) h = cc

  start_watchdog-Guarded : (w : Machine) → Guarded (start_watchdog sys w).1
  unfolding start_watchdog
  start_watchdog-Guarded w = watched-Guarded (is_active sys _) (is_active-Guarded _)

  guard_trial-Guarded :
      (digest : Text) (w : Machine)
      → (guard_trial sys digest w).0 ≡ ok tt
      → Guarded (guard_trial sys digest w).1
  unfolding guard_trial
  guard_trial-Guarded digest w h =
      let (_, _, h1, m1) = bind_ok (map_err (create_dir_all run_dir) _) _ w h in
      let (_, _, _, m2) = bind_ok (map_err (write (run_file (codes "trial")) _) _) _ _ h1 in
      subst Guarded (sym (m1 ∙ m2)) (start_watchdog-Guarded _)

  act_on-Guarded :
      (t : Trial) (a : Assessment) (w : Machine)
      → a ≡ trial_in_progress
      → (act_on sys t a w).0 ≡ ok tt
      → Guarded (act_on sys t a w).1
  unfolding act_on
  act_on-Guarded t a w e h =
      rw e (guard_trial-Guarded t.booted.digest (load_config w).1 (rw e at h))

  assess-Guarded :
      (w : Machine) (t : Trial)
      → (load_trial sys w).0 ≡ ok t
      → assessment t ≡ trial_in_progress
      → (cmd_assess sys w).0 ≡ ok tt
      → Guarded (cmd_assess sys w).1
  unfolding cmd_assess
  assess-Guarded w t loaded e h =
      let (t', loaded', h', m) = bind_ok (load_trial sys) (λ x. act_on sys x (assessment x)) w h in
      let same = ok_injective (sym loaded' ∙ loaded) in
      subst Guarded (sym m)
        (act_on-Guarded t' (assessment t') (load_trial sys w).1 (ap assessment same ∙ e) h')

  assessed_first :
      (a r : Result (Unit {0})) (w : Machine)
      → ((or_guard sys a >> lift (both_ok sys a r)) w).0 ≡ ok tt
      → (a ≡ ok tt) × (((or_guard sys a >> lift (both_ok sys a r)) w).1 ≡ w)
  unfolding or_guard
  assessed_first (ok _) r w h = (refl, refl)
  assessed_first (err e) r w h =
      let (_, _, h1, _) = bind_ok (or_guard sys (err e)) (λ _. lift (err e)) w h in absurd (cc h1)

  -- If `boot` succeeds on a boot that it finds to be a trial in progress, then the last thing it did
  -- was to see systemd call the watchdog active, or to force a reboot.
  pub cmd_boot-Guarded :
      (w : Machine) (t : Trial)
      → (load_trial sys (setup_backend sys w).1).0 ≡ ok t
      → assessment t ≡ trial_in_progress
      → (cmd_boot sys w).0 ≡ ok tt
      → Guarded (cmd_boot sys w).1
  unfolding cmd_boot
  cmd_boot-Guarded w t loaded e h =
      let w1 = (setup_backend sys w).1 in
      let (assessed, m) =
        assessed_first (cmd_assess sys w1).0 (setup_backend sys w).0 (cmd_assess sys w1).1 h in
      subst Guarded (sym m) (assess-Guarded w1 t loaded e assessed)
