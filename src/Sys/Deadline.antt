-- ===== src/Sys/Deadline.antt =====
-- `wait_deadline`, `run_timeout`, `capture_within` and `status_within` of bootguard/src/sys.rs. The
-- child process is a parameter: what each `try_wait` answers, and the clock at each round of the loop.
use agenticlinux.Prelude.{
  ℕ, zero, suc, ◌+◌, ◌*◌, ◌/◌, Bool, true, false, List, ◌++◌, Option, none, some, Result, ok, err,
  leb,
}
use agenticlinux.Prelude.Results.{◌>>=◌, ok_or, guard}
use agenticlinux.Text.{Text, codes}
use agenticlinux.Text.Decimal.{to_string}
use agenticlinux.Utf8.{Bytes, from_utf8_lossy}
use agenticlinux.Machine.Helpers.{message_of, command_line}

pub record ExitStatus : Type 0 where
  pub success : Bool
  -- How it is printed.
  pub shown : Text

-- A child that was started: the answers of `try_wait`, the milliseconds since the start at the check
-- of each round, whether `wait` comes back once the child's group is killed, and what a read of its
-- standard output gives in the end; none where another process keeps the pipe open for ever.
pub record Child : Type 0 where
  pub try_wait : ℕ → Result (Option ExitStatus)
  pub elapsed : ℕ → ℕ
  pub reaped : Bool
  pub output : Option (Result Bytes)

-- What the wait comes to, and whether the child's group was killed; or it blocks for ever in `wait`.
pub data Waited : Type 0 where
  ended : Result (Option ExitStatus) → Bool → Waited
  stuck : Waited

-- `kill`, and then the `wait` for the killed child.
unfoldable pub after_kill : Bool → Waited
after_kill true = ended (ok none) true
after_kill false = stuck

unfoldable pub unless_late : Bool → Option Waited → Bool → Option Waited
unless_late reaped next true = some (after_kill reaped)
unless_late reaped next false = next

-- One round: the answer, the deadline, and the next round after a sleep.
unfoldable pub round : Bool → Option Waited → Bool → Result (Option ExitStatus) → Option Waited
round reaped next late (err e) = some (ended (err e) false)
round reaped next late (ok (some st)) = some (ended (ok (some st)) false)
round reaped next late (ok none) = unless_late reaped next late

-- The loop from round `n` on; none where the fuel runs out.
unfoldable pub wait_from : ℕ → Child → ℕ → ℕ → Option Waited
wait_from zero child timeout n = none
wait_from (suc fuel) child timeout n =
    round child.reaped (wait_from fuel child timeout (suc n)) (leb timeout (child.elapsed n))
      (child.try_wait n)

-- A round lasts 100 ms or more.
unfoldable pub wait_deadline : Child → ℕ → Option Waited
wait_deadline child timeout = wait_from (suc (timeout / 100 + 1)) child timeout 0

-- A function that comes back, or one that blocks for ever.
pub data Outcome {ℓ} (A : Type ℓ) : Type ℓ where
  returns : A → Outcome A
  hangs : Outcome A

abbrev pub then_waited {ℓ} :
    {A : Type ℓ} → (Result (Option ExitStatus) → Outcome A) → Option Waited → Option (Outcome A)
then_waited f none = none
then_waited f (some (ended r _)) = some (f r)
then_waited f (some stuck) = some hangs

-- The child could not be started, or is waited for.
unfoldable pub run_timeout : Result Child → ℕ → Option (Outcome (Result (Option ExitStatus)))
run_timeout (err e) timeout = some (returns (err e))
run_timeout (ok child) timeout = then_waited returns (wait_deadline child timeout)

unfoldable pub is_done : Result (Option ExitStatus) → Bool
is_done (ok (some st)) = st.success
is_done (ok none) = false
is_done (err _) = false

abbrev map_run :
    (Result (Option ExitStatus) → Bool)
    → Option (Outcome (Result (Option ExitStatus)))
    → Option (Outcome Bool)
map_run f none = none
map_run f (some hangs) = some hangs
map_run f (some (returns r)) = some (returns (f r))

unfoldable pub status_within : Result Child → ℕ → Option (Outcome Bool)
status_within spawned timeout = map_run is_done (run_timeout spawned timeout)

-- What is done with the child's status; `seconds` is the limit.
unfoldable pub ended_well : Text → List Text → ℕ → Result (Option ExitStatus) → Result (Unit {0})
ended_well prog args seconds waited = do
  in_time ← message_of (λ e. codes "wait for " ++ (prog ++ (codes ": " ++ e))) waited
  st ←
      ok_or in_time
        (command_line prog args ++ (codes " timed out after " ++ (to_string seconds ++ codes "s")))
  guard st.success (command_line prog args ++ (codes " exited with " ++ st.shown))

abbrev pub read_output : Text → Result Bytes → Result Text
read_output prog (ok bytes) = ok (from_utf8_lossy bytes)
read_output prog (err e) = err (codes "read " ++ (prog ++ (codes ": " ++ e)))

-- `reader.join()`, which has no time limit.
unfoldable pub joined : Text → Option (Result Bytes) → Outcome (Result Text)
joined prog none = hangs
joined prog (some r) = returns (read_output prog r)

abbrev pub if_ended_well : Result (Unit {0}) → Outcome (Result Text) → Outcome (Result Text)
if_ended_well (err e) joined_output = returns (err e)
if_ended_well (ok _) joined_output = joined_output

-- The text of the whole output, if the child ended well and in time.
unfoldable pub output_within :
    Text
    → List Text
    → ℕ
    → Option (Result Bytes)
    → Result (Option ExitStatus)
    → Outcome (Result Text)
output_within prog args seconds output waited =
    if_ended_well (ended_well prog args seconds waited) (joined prog output)

unfoldable pub capture_within : Text → List Text → Result Child → ℕ → Option (Outcome (Result Text))
capture_within prog args (err e) seconds =
    some (returns (err (codes "spawn " ++ (prog ++ (codes ": " ++ e)))))
capture_within prog args (ok child) seconds =
    then_waited (output_within prog args seconds child.output)
      (wait_deadline child (1000 * seconds))
