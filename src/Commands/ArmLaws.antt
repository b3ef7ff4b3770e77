-- ===== src/Commands/ArmLaws.antt =====
-- `cmd_arm` of bootguard/src/main.rs fails closed: what it may leave behind at shutdown.
use agenticlinux.Prelude.{
  ◌≡◌, refl, ◌∙◌, ap, sym, subst, ◌⊎◌, inl, inr, Bool, true, false, List, [], ◌∷◌, Option, none,
  some, Result, ok, err,
}
use agenticlinux.Text.{Text, codes, contains}
use agenticlinux.Machine.Keeps.{LeavesAlone}
use agenticlinux.Machine.Monad.{Machine, bind_ok, lift, resume, ◌>>=◌}
use agenticlinux.Config.{Config}
use agenticlinux.Bootc.{Deployment, Status}
use agenticlinux.Bootc.Commands.{System, status}
use agenticlinux.Backend.{Backend, detect, unstage_any}
use agenticlinux.Backend as Stack
use agenticlinux.Backend.Unmarked.{NoMarker, unstage-NoMarker, unstage_any-NoMarker}
use agenticlinux.Commands.{rejected_digests, load_config}
use agenticlinux.Commands.Arm.{
  check_staged, discarding, rejecting, told, or_discard, arm_trial, arm_if_passed, check_and_arm,
  arm_unless_rejected, arm_found, arm_staged, or_drop, arm_if, cmd_arm,
}

module _ (sys : System) (cfg : Config) (start : Machine) where
  -- Behind the status, and behind the record of rejected images.
  abbrev read_status : Machine
  read_status = (status sys start).1

  abbrev read_records : Machine
  read_records = (rejected_digests read_status).1

  -- What bootc's status says: this deployment is staged, on this stack.
  pub record IsStaged (b : Backend) (staged : Deployment) : Type 0 where
    pub st : Status
    pub read : (status sys start).0 ≡ ok st
    pub stack : detect st ≡ ok b
    pub is_staged : st.staged ≡ some staged

  abbrev pub was_rejected : Deployment → Bool
  was_rejected staged = contains (rejected_digests read_status).0 staged.digest

  -- The machine on which a trial may be armed: preflight is turned off, or has just passed there.
  abbrev pub MayArm : Backend → Deployment → Machine → Type 0
  MayArm b staged u =
      ((cfg.preflight ≡ false) × (u ≡ read_records))
      ⊎ ((cfg.preflight ≡ true)
          × ((check_staged sys b staged read_records).0 ≡ ok [])
          × (u ≡ (check_staged sys b staged read_records).1))

  -- What was done about the update.
  pub data Handled : Machine → Type 0 where
    nothing_staged :
        (st : Status) → (status sys start).0 ≡ ok st → st.staged ≡ none → Handled read_status
    trial_armed :
        (b : Backend) (staged : Deployment) (u : Machine)
        → IsStaged b staged
        → was_rejected staged ≡ false
        → MayArm b staged u
        → (Stack.arm sys b staged cfg.max_attempts u).0 ≡ ok tt
        → Handled (Stack.arm sys b staged cfg.max_attempts u).1
    dropped :
        (b : Backend) (staged : Deployment) (was : Bool)
        → IsStaged b staged
        → was_rejected staged ≡ true
        → (Stack.unstage sys b read_records).0 ≡ ok was
        → NoMarker b (Stack.unstage sys b read_records).1.files
        → Handled (Stack.unstage sys b read_records).1
    dropped_and_told :
        (b : Backend) (staged : Deployment) (m : Text) (ms : List Text) (was : Bool)
        → IsStaged b staged
        → was_rejected staged ≡ false
        → cfg.preflight ≡ true
        → (check_staged sys b staged read_records).0 ≡ ok (m ∷ ms)
        → (Stack.unstage sys b (check_staged sys b staged read_records).1).0 ≡ ok was
        → NoMarker b (Stack.unstage sys b (check_staged sys b staged read_records).1).1.files
        → Handled
            (rejecting sys staged
              (m ∷ ms)
              (Stack.unstage sys b (check_staged sys b staged read_records).1).1).1
    both_dropped :
        (e : Text) (was : Bool)
        → (arm_staged sys cfg start).0 ≡ err e
        → (unstage_any sys (arm_staged sys cfg start).1).0 ≡ ok was
        → ((b : Backend) → NoMarker b (unstage_any sys (arm_staged sys cfg start).1).1.files)
        → Handled (told sys e was (unstage_any sys (arm_staged sys cfg start).1).1).1

  or_discard_ok :
      (b : Backend) (staged : Deployment) (r : Result (Unit {0}) × Machine)
      → (or_discard sys b staged r).0 ≡ ok tt
      → (r.0 ≡ ok tt) × ((or_discard sys b staged r).1 ≡ r.1)
  unfolding or_discard
  or_discard_ok b staged (ok _, w) h = (refl, refl)
  or_discard_ok b staged (err e, w) h = cc

  arm_trial-Handled :
      (b : Backend) (staged : Deployment) (u : Machine)
      → IsStaged b staged
      → was_rejected staged ≡ false
      → MayArm b staged u
      → (arm_trial sys cfg b staged u).0 ≡ ok tt
      → Handled (arm_trial sys cfg b staged u).1
  unfolding arm_trial
  arm_trial-Handled b staged u is fresh may h =
      let (done, m) = or_discard_ok b staged (Stack.arm sys b staged cfg.max_attempts u) h in
      subst Handled (sym m) (trial_armed b staged u is fresh may done)

  module _ (mount : (p : Text) → LeavesAlone sys.host (codes "mount") p) where
    arm_if_passed-Handled :
        (b : Backend) (staged : Deployment) (fatals : List Text)
        → IsStaged b staged
        → was_rejected staged ≡ false
        → cfg.preflight ≡ true
        → (check_staged sys b staged read_records).0 ≡ ok fatals
        → (arm_if_passed sys cfg b staged fatals (check_staged sys b staged read_records).1).0
          ≡ ok tt
        → Handled
            (arm_if_passed sys cfg b staged fatals (check_staged sys b staged read_records).1).1
    unfolding arm_if_passed
    arm_if_passed-Handled b staged [] is fresh on found h =
        arm_trial-Handled b staged (check_staged sys b staged read_records).1 is fresh
          (inr (on, found, refl)) h
    arm_if_passed-Handled b staged (m ∷ ms) is fresh on found h =
        let u = (check_staged sys b staged read_records).1 in
        let (_, dropped_ok, _, e1) =
          bind_ok (discarding sys (Stack.unstage sys b)) (λ _. rejecting sys staged (m ∷ ms)) u h in
        let (was, done, _, e2) = bind_ok (Stack.unstage sys b) (λ _ v. (ok tt, v)) u dropped_ok in
        subst Handled (sym (e1 ∙ ap (λ v. (rejecting sys staged (m ∷ ms) v).1) e2)) (
          dropped_and_told b staged m ms was is fresh on found done
            (unstage-NoMarker sys mount b u done))

    check_and_arm-Handled :
        (b : Backend) (staged : Deployment) (flag : Bool)
        → cfg.preflight ≡ flag
        → IsStaged b staged
        → was_rejected staged ≡ false
        → (check_and_arm sys cfg b staged flag read_records).0 ≡ ok tt
        → Handled (check_and_arm sys cfg b staged flag read_records).1
    unfolding check_and_arm
    check_and_arm-Handled b staged false e is fresh h =
        arm_trial-Handled b staged read_records is fresh (inl (e, refl)) h
    check_and_arm-Handled b staged true e is fresh h =
        let (fatals, found, h1, m) =
          bind_ok (check_staged sys b staged) (arm_if_passed sys cfg b staged) read_records h in
        subst Handled (sym m) (arm_if_passed-Handled b staged fatals is fresh e found h1)

    arm_unless_rejected-Handled :
        (b : Backend) (staged : Deployment) (rejected : Bool)
        → IsStaged b staged
        → was_rejected staged ≡ rejected
        → (arm_unless_rejected sys cfg b staged rejected read_records).0 ≡ ok tt
        → Handled (arm_unless_rejected sys cfg b staged rejected read_records).1
    unfolding arm_unless_rejected
    arm_unless_rejected-Handled b staged true is e h =
        let (was, done, _, m) = bind_ok (Stack.unstage sys b) (λ _ v. (ok tt, v)) read_records h in
        subst Handled (sym m)
          (dropped b staged was is e done (unstage-NoMarker sys mount b read_records done))
    arm_unless_rejected-Handled b staged false is e h =
        check_and_arm-Handled b staged cfg.preflight refl is e h

    arm_found-Handled :
        (b : Backend) (found : Option Deployment) (st : Status)
        → (status sys start).0 ≡ ok st
        → detect st ≡ ok b
        → st.staged ≡ found
        → (arm_found sys cfg b found read_status).0 ≡ ok tt
        → Handled (arm_found sys cfg b found read_status).1
    unfolding arm_found
    arm_found-Handled b none st read stack e h = nothing_staged st read e
    arm_found-Handled b (some staged) st read stack e h =
        arm_unless_rejected-Handled b staged (was_rejected staged)
          (record { st = st; read = read; stack = stack; is_staged = e }) refl h

    arm_staged-Handled : (arm_staged sys cfg start).0 ≡ ok tt → Handled (arm_staged sys cfg start).1
    unfolding arm_staged
    arm_staged-Handled h =
        let (st, read, h1, m1) =
          bind_ok (status sys) (λ st. lift (detect st) >>= λ b. arm_found sys cfg b st.staged) start
            h in
        let (b, stack, h2, m2) =
          bind_ok (lift (detect st)) (λ b. arm_found sys cfg b st.staged) read_status h1 in
        subst Handled (sym (m1 ∙ m2)) (arm_found-Handled b st.staged st read stack refl h2)

  -- What `arm` comes to: the update is handled, or arming failed and a marker of the two stacks could
  -- not be removed, and that is the error.
  abbrev pub Closed : Result (Unit {0}) × Machine → Type 0
  Closed (ok _, v) = Handled v
  Closed (err e, v) =
      (why : Text) × ((arm_staged sys cfg start).0 ≡ err why)
      × ((unstage_any sys (arm_staged sys cfg start).1).0 ≡ err e)
      × (v ≡ (unstage_any sys (arm_staged sys cfg start).1).1)

  module _ (mount : (p : Text) → LeavesAlone sys.host (codes "mount") p) where
    dropped_or_stuck :
        (e : Text) (r : Result Bool)
        → (arm_staged sys cfg start).0 ≡ err e
        → (unstage_any sys (arm_staged sys cfg start).1).0 ≡ r
        → Closed (resume r (unstage_any sys (arm_staged sys cfg start).1).1 (told sys e))
    dropped_or_stuck e (ok true) failed h =
        both_dropped e true failed h
          (λ b. unstage_any-NoMarker sys mount (arm_staged sys cfg start).1 h b)
    dropped_or_stuck e (ok false) failed h =
        both_dropped e false failed h
          (λ b. unstage_any-NoMarker sys mount (arm_staged sys cfg start).1 h b)
    dropped_or_stuck e (err m) failed h = (e, failed, h, refl)

    or_drop-Closed :
        (r : Result (Unit {0}))
        → (arm_staged sys cfg start).0 ≡ r
        → Closed (or_drop sys (r, (arm_staged sys cfg start).1))
    unfolding or_drop
    or_drop-Closed (ok _) h = arm_staged-Handled mount h
    or_drop-Closed (err e) h =
        dropped_or_stuck e (unstage_any sys (arm_staged sys cfg start).1).0 h refl

    arm_if-Closed : Closed (arm_if sys cfg true start)
    unfolding arm_if
    arm_if-Closed = or_drop-Closed (arm_staged sys cfg start).0 refl

-- `arm` fails closed. Where it is enabled, it succeeds only if the status says that nothing is staged;
-- or if the trial of the staged image, which is not among the rejected ones and has just passed
-- preflight (or preflight is turned off), is armed with the configured attempts; or if the image was
-- rejected before or does not pass preflight and its stack's staged marker is gone; or if arming
-- failed and the staged markers of both stacks are gone. It fails only where arming failed and a
-- marker could not be removed, with that error. `mount` leaves every file's content alone.
pub cmd_arm-Closed :
    (sys : System)
    → ((p : Text) → LeavesAlone sys.host (codes "mount") p)
    → (w : Machine) → (load_config w).0.enabled ≡ true
    → Closed sys (load_config w).0 (load_config w).1 (cmd_arm sys w)
unfolding cmd_arm
cmd_arm-Closed sys mount w enabled =
    rw enabled (arm_if-Closed sys (load_config w).0 (load_config w).1 mount)
