-- ===== src/Commands/ChecksLaws.antt =====
-- What `run_checks` of bootguard/src/main.rs has seen when it succeeds.
use agenticlinux.Prelude.{
  ℕ, ◌≡◌, refl, ◌⊎◌, inl, inr, Bool, true, false, List, [], ◌∷◌, Option, none, some, Result, ok,
  All, Bool-cases,
}
use agenticlinux.Text.{Text, codes, trim, is_empty}
use agenticlinux.Text.Split.{lines}
use agenticlinux.Utf8.{Bytes}
use agenticlinux.Machine.Monad.{Machine, bind_ok, lift}
use agenticlinux.Machine.Helpers.{
  Host, Reply, succeeded, exited, timed_out, cannot_run, systemctl, capture,
}
use agenticlinux.Config.{Config}
use agenticlinux.Commands.Scripts.{
  script_result, run_script, run_required, unit_or, check_units, first_line, none_failed,
  check_failed_units, collect_scripts, run_wanted, run_checks,
}

module _ (h : Host) where
  -- systemd called the unit active.
  abbrev pub WasActive : Text → Type 0
  WasActive u =
      (v : Machine) × ((systemctl h (codes "is-active" ∷ codes "--quiet" ∷ u ∷ []) v).0 ≡ true)

  -- The script was run and ended well, in time.
  abbrev pub HasSucceeded : Text → Type 0
  HasSucceeded p = (v : Machine) × (out : Bytes) × (h.reply p [] v ≡ succeeded out)

  -- systemd listed no failed unit: every line is blank.
  abbrev pub NoneFailed : Type 0
  NoneFailed =
      (v : Machine) × (out : Text) × ((capture h (codes "systemctl")
          (codes "--failed" ∷ codes "--no-legend" ∷ codes "--plain" ∷ []) v).0
        ≡ ok out)
      × All (λ l. is_empty (trim l) ≡ true) (lines out)

  unit_or_ok :
      (u : Text) (next : Machine → Result (Unit {0}) × Machine) (r : Bool × Machine)
      → (unit_or h u next r).0 ≡ ok tt
      → (r.0 ≡ true) × ((next r.1).0 ≡ ok tt)
  unfolding unit_or
  unit_or_ok u next (true, w) e = (refl, e)
  unit_or_ok u next (false, w) e = cc

  check_units-WasActive :
      (us : List Text) (w : Machine) → (check_units h us w).0 ≡ ok tt → All WasActive us
  unfolding check_units
  check_units-WasActive [] w e = tt
  check_units-WasActive (u ∷ us) w e =
      let asked = systemctl h (codes "is-active" ∷ codes "--quiet" ∷ u ∷ []) w in
      let (active, later) = unit_or_ok u (check_units h us) asked e in
      ((w, active), check_units-WasActive us asked.1 later)

  first_line-blank :
      (ls : List Text) → first_line h ls ≡ none → All (λ l. is_empty (trim l) ≡ true) ls
  unfolding first_line
  first_line-blank [] e = tt
  first_line-blank (l ∷ ls) e = elim (Bool-cases (is_empty (trim l))) [
    | inl blank ↦ (blank, first_line-blank ls (rw blank at e))
    | inr full ↦ absurd (cc (rw full at e))
  ]

  none_failed_ok : (o : Option Text) → none_failed h o ≡ ok tt → o ≡ none
  none_failed_ok none e = refl
  none_failed_ok (some l) e = cc

  check_failed_units-None :
      (flag : Bool) (w : Machine)
      → (check_failed_units h flag w).0 ≡ ok tt
      → (flag ≡ false) ⊎ NoneFailed
  unfolding check_failed_units
  check_failed_units-None false w e = inl refl
  check_failed_units-None true w e =
      let (out, listed, e1, _) =
        bind_ok
          (capture h (codes "systemctl")
            (codes "--failed" ∷ codes "--no-legend" ∷ codes "--plain" ∷ []))
          (λ failed. lift (none_failed h (first_line h (lines failed)))) w e in
      inr (
        w,
        out,
        listed,
        first_line-blank (lines out) (none_failed_ok (first_line h (lines out)) e1),
      )

  script_result_ok :
      (p : Text) (seconds : ℕ) (r : Reply)
      → script_result h p seconds r ≡ ok tt
      → (out : Bytes) × (r ≡ succeeded out)
  script_result_ok p seconds (succeeded out) e = (out, refl)
  script_result_ok p seconds (exited st) e = cc
  script_result_ok p seconds timed_out e = cc
  script_result_ok p seconds (cannot_run m) e = cc

  run_required-Succeeded :
      (ps : List Text) (seconds : ℕ) (w : Machine)
      → (run_required h ps seconds w).0 ≡ ok tt
      → All HasSucceeded ps
  unfolding run_required run_script
  run_required-Succeeded [] seconds w e = tt
  run_required-Succeeded (p ∷ ps) seconds w e =
      let (_, ran_ok, e1, _) =
        bind_ok (run_script h p seconds) (λ _. run_required h ps seconds) w e in
      let (out, replied) = script_result_ok p seconds (h.reply p [] w) ran_ok in
      ((w, out, replied), run_required-Succeeded ps seconds (run_script h p seconds w).1 e1)

  -- Behind the questions about the units.
  abbrev pub units_checked : Config → Machine → Machine
  units_checked cfg w =
      (check_failed_units h cfg.fail_on_failed_units (check_units h cfg.required_units w).1).1

  -- If the health checks succeed, systemd has called every required unit active and, where that is
  -- asked for, has listed no failed unit, and the required scripts could be found on the machine behind
  -- these questions, and each of them was run and ended well, in time.
  pub run_checks-Healthy :
      (cfg : Config) (w : Machine)
      → (run_checks h cfg w).0 ≡ ok tt
      → All WasActive cfg.required_units
        × ((cfg.fail_on_failed_units ≡ false) ⊎ NoneFailed)
        × ((ps : List Text) × ((collect_scripts h
                (codes "check/required.d")
                (units_checked cfg w)).0
              ≡ ok ps)
            × All HasSucceeded ps)
  unfolding run_checks
  run_checks-Healthy cfg w e =
      let (_, units, e1, _) = bind_ok (check_units h cfg.required_units) _ w e in
      let v1 = (check_units h cfg.required_units w).1 in
      let (_, failed, e2, _) = bind_ok (check_failed_units h cfg.fail_on_failed_units) _ v1 e1 in
      let v2 = (check_failed_units h cfg.fail_on_failed_units v1).1 in
      let (ps, found, e3, _) = bind_ok (collect_scripts h (codes "check/required.d")) _ v2 e2 in
      let v3 = (collect_scripts h (codes "check/required.d") v2).1 in
      let (_, required, _, _) =
        bind_ok (run_required h ps cfg.check_timeout) (λ _. run_wanted h cfg) v3 e3 in
      (
        check_units-WasActive cfg.required_units w units,
        check_failed_units-None cfg.fail_on_failed_units v1 failed,
        (ps, found, run_required-Succeeded ps cfg.check_timeout v3 required),
      )
