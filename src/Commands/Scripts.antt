-- ===== src/Commands/Scripts.antt =====
-- The health checks of bootguard/src/main.rs: the scripts found, and run.
use agenticlinux.Prelude.{
  Bool, true, false, List, [], ◌∷◌, ◌++◌, Option, none, some, Result, ok, err, ℕ, if◌then◌else◌,
}
use agenticlinux.Text.{Text, codes, equal, trim, is_empty}
use agenticlinux.Text.Order.{before}
use agenticlinux.Text.Split.{lines}
use agenticlinux.Text.Decimal.{to_string}
use agenticlinux.Machine.Monad.{Machine, Io, ◌>>=◌, ◌>>◌, lift}
use agenticlinux.Machine.Fs.{IoResult, done, not_found, failed, read_dir}
use agenticlinux.Machine.Helpers.{
  Host, Reply, succeeded, exited, timed_out, cannot_run, ran, systemctl, capture,
}
use agenticlinux.Sys.Executable.{is_executable}
use agenticlinux.Config.{Config}
use agenticlinux.Sdboot.Files.{join}

-- `BTreeMap<OsString, PathBuf>`: its names stand in order.
abbrev pub Scripts : Type 0
Scripts = List (Text × Text)

abbrev pub insert_at : Text → Text → Text → Text → Scripts → Scripts → Bool → Bool → Scripts
insert_at n p k q m rest true less = (n, p) ∷ m
insert_at n p k q m rest false true = (k, q) ∷ rest
insert_at n p k q m rest false false = (n, p) ∷ (k, q) ∷ m

-- `m.insert(name, path)`
unfoldable pub insert_script : Text → Text → Scripts → Scripts
insert_script n p [] = (n, p) ∷ []
insert_script n p ((k, q) ∷ m) = insert_at n p k q m (insert_script n p m) (equal k n) (before k n)

-- The loop over the entries of a directory.
unfoldable pub insert_all : Text → List Text → Scripts → Scripts
unfolding insert_script
insert_all dir [] m = m
insert_all dir (n ∷ ns) m = insert_all dir ns (insert_script n (join dir n) m)

abbrev pub listed : Text → Scripts → IoResult (List Text) → Result Scripts
listed dir m (done ns) = ok (insert_all dir ns m)
listed dir m not_found = ok m
listed dir m (failed e) = err (codes "cannot read " ++ (dir ++ (codes ": " ++ e)))

unfoldable pub add_dir : Text → Scripts → Io Scripts
unfolding insert_all
add_dir dir m w = let (r, w') = read_dir dir w in (listed dir m r, w')

-- The loop over the bases.
unfoldable pub merged : List Text → Text → Scripts → Io Scripts
merged [] sub m w = (ok m, w)
merged (b ∷ bs) sub m w = (add_dir (join b sub) m >>= merged bs sub) w

unfoldable pub only_executable : Host → Scripts → Machine → List Text
unfolding is_executable
only_executable h [] w = []
only_executable h ((_, p) ∷ m) w =
    let rest = only_executable h m w in if is_executable h p w then p ∷ rest else rest

module _ (h : Host) where
  abbrev pub runnable : Scripts → Io (List Text)
  runnable m w = (ok (only_executable h m w), w)

  -- The executable scripts of `sub`, by name; a later base overrides.
  unfoldable pub scripts_in : List Text → Text → Io (List Text)
  scripts_in bases sub = merged bases sub [] >>= runnable

  unfoldable pub collect_scripts : Text → Io (List Text)
  collect_scripts =
      scripts_in
        (codes "/usr/lib/agenticlinux-bootguard" ∷ codes "/etc/agenticlinux-bootguard" ∷ [])

  abbrev or_none : Result (List Text) → List Text
  or_none (ok ps) = ps
  or_none (err e) = []

  unfoldable pub optional_scripts : Text → Machine → List Text × Machine
  optional_scripts sub w = let (r, w') = collect_scripts sub w in (or_none r, w')

  abbrev pub script_result : Text → ℕ → Reply → Result (Unit {0})
  script_result p seconds (succeeded out) = ok tt
  script_result p seconds (exited st) = err (p ++ (codes " failed (" ++ (st ++ codes ")")))
  script_result p seconds timed_out =
      err (p ++ (codes " timed out after " ++ (to_string seconds ++ codes "s and was killed")))
  script_result p seconds (cannot_run e) = err (p ++ (codes ": " ++ e))

  unfoldable pub run_script : Text → ℕ → Io (Unit {0})
  run_script p seconds w = (script_result p seconds (h.reply p [] w), ran h p [] w)

  -- Runs the scripts, whatever each one comes to.
  unfoldable pub run_all : List Text → ℕ → Machine → Machine
  run_all [] seconds w = w
  run_all (p ∷ ps) seconds w = run_all ps seconds (run_script p seconds w).1

  unfoldable pub run_hooks : Text → Config → Machine → Machine
  run_hooks sub cfg w = let (ps, w') = optional_scripts sub w in run_all ps cfg.check_timeout w'

  -- Runs the scripts up to the first one that fails.
  unfoldable pub run_required : List Text → ℕ → Io (Unit {0})
  run_required [] seconds w = (ok tt, w)
  run_required (p ∷ ps) seconds w = (run_script p seconds >>= λ _. run_required ps seconds) w

  unfoldable pub unit_or : Text → Io (Unit {0}) → Bool × Machine → Result (Unit {0}) × Machine
  unit_or u next (true, w) = next w
  unit_or u next (false, w) = (err (codes "required unit " ++ (u ++ codes " is not active")), w)

  -- The loop up to the first unit that is not active.
  unfoldable pub check_units : List Text → Io (Unit {0})
  check_units [] w = (ok tt, w)
  check_units (u ∷ us) w =
      unit_or u (check_units us) (systemctl h (codes "is-active" ∷ codes "--quiet" ∷ u ∷ []) w)

  -- `map(str::trim).find(|l| !l.is_empty())`
  unfoldable pub first_line : List Text → Option Text
  first_line [] = none
  first_line (l ∷ ls) =
      let rest = first_line ls in if is_empty (trim l) then rest else some (trim l)

  abbrev pub none_failed : Option Text → Result (Unit {0})
  none_failed none = ok tt
  none_failed (some l) = err (codes "failed units: " ++ l)

  unfoldable pub check_failed_units : Bool → Io (Unit {0})
  check_failed_units false w = (ok tt, w)
  check_failed_units true w =
      (capture h (codes "systemctl") (codes "--failed" ∷ codes "--no-legend" ∷ codes "--plain" ∷ [])
          >>= λ failed. lift (none_failed (first_line (lines failed))))
        w

  abbrev pub run_wanted : Config → Io (Unit {0})
  run_wanted cfg w =
      let (ps, w') = optional_scripts (codes "check/wanted.d") w in
      (ok tt, run_all ps cfg.check_timeout w')

  unfoldable pub run_checks : Config → Io (Unit {0})
  run_checks cfg = do
    check_units cfg.required_units
    check_failed_units cfg.fail_on_failed_units
    ps ← collect_scripts (codes "check/required.d")
    run_required ps cfg.check_timeout
    run_wanted cfg
