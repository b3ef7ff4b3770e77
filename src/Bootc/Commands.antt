-- ===== src/Bootc/Commands.antt =====
-- bootguard/src/bootc.rs: the commands `bootc` and `ostree`. The system is a parameter: its programs,
-- serde_json's and toml's reading of texts into structures, and the clock.
use agenticlinux.Prelude.{Bool, true, false, [], ◌∷◌, ◌++◌, Result, ok, err, ℕ}
use agenticlinux.Text.{Text, codes}
use agenticlinux.Machine.Monad.{Machine, Io, ◌>>=◌, lift}
use agenticlinux.Machine.Helpers.{Host, capture, status_ok, remove_if_exists}
use agenticlinux.Preflight.Kargs.{KargsFile}
use agenticlinux.Bootc.{Raw, Status, status_of, parse_booted_is_default}

pub record System : Type 0 where
  pub host : Host
  pub from_json : Text → Result Raw
  -- toml's reading of a file of kernel arguments, and the name of the processor's architecture.
  pub from_toml : Text → Result KargsFile
  pub arch : Text
  -- Seconds since the epoch.
  pub now : Machine → ℕ

abbrev converted : Result Raw → Result Status
converted (ok raw) = ok (status_of raw)
converted (err e) = err (codes "parse bootc status: " ++ e)

unfoldable pub unstage : Io Bool
unstage = remove_if_exists (codes "/run/ostree/staged-deployment")

module _ (sys : System) where
  unfoldable pub parse_status : Text → Result Status
  parse_status json = converted (sys.from_json json)

  unfoldable pub status : Io Status
  status = do
    out ← capture sys.host (codes "bootc") (codes "status" ∷ codes "--json" ∷ [])
    lift (parse_status out)

  abbrev rolled_back : Bool × Machine → Result (Unit {0}) × Machine
  rolled_back (true, w) = (ok tt, w)
  rolled_back (false, w) = (err (codes "bootc rollback failed"), w)

  unfoldable pub rollback : Io (Unit {0})
  rollback w = rolled_back (status_ok sys.host (codes "bootc") (codes "rollback" ∷ []) w)

  unfoldable pub booted_is_default : Io Bool
  booted_is_default = do
    out ← capture sys.host (codes "ostree") (codes "admin" ∷ codes "status" ∷ [])
    lift (parse_booted_is_default out)
