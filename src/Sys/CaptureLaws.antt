-- ===== src/Sys/CaptureLaws.antt =====
-- When `capture_within` of bootguard/src/sys.rs comes back, and what an output stands for.
use agenticlinux.Prelude.{
  ℕ, suc, ◌+◌, ◌*◌, ◌≤◌, ◌<◌, ◌≡◌, refl, ◌∙◌, ap, sym, subst, inl, inr, Bool, true, false, List,
  Option, none, some, Result, ok, err, ok_or_ok, guard_ok, >>=-eq-ok,
}
use agenticlinux.Prelude.Results.{ok_or}
use agenticlinux.Text.{Text}
use agenticlinux.Utf8.{Bytes, from_utf8_lossy}
use agenticlinux.Machine.FileLaws.{message_of_ok}
use agenticlinux.Machine.Helpers.{message_of}
use agenticlinux.Sys.Deadline.{
  ExitStatus, Child, after_kill, Outcome, returns, hangs, then_waited, ended_well, joined,
  if_ended_well, output_within, capture_within,
}
use agenticlinux.Sys.DeadlineLaws.{wait_deadline-Ends}

-- The child ended well, at a round up to which the time was not over.
pub record EndedWell (child : Child) (timeout : ℕ) : Type 0 where
  pub last : ℕ
  pub in_time : (m : ℕ) → m < last → (child.elapsed m < timeout) × (child.try_wait m ≡ ok none)
  pub status : ExitStatus
  pub answer : child.try_wait last ≡ ok (some status)
  pub succeeded : status.success ≡ true

-- And this is the text of its whole output.
pub record Captured (child : Child) (timeout : ℕ) (text : Text) : Type 0 where
  pub ended : EndedWell child timeout
  pub bytes : Bytes
  pub output : child.output ≡ some (ok bytes)
  pub is_text : text ≡ from_utf8_lossy bytes

-- What may block for ever: the wait for a child that was killed at the deadline, or the read of the
-- output of a child that ended well, where another process keeps the pipe open.
pub data Blocked (child : Child) (timeout : ℕ) : Type 0 where
  by_wait :
      (n : ℕ)
      → child.try_wait n ≡ ok none
      → timeout ≤ child.elapsed n
      → child.reaped ≡ false
      → Blocked child timeout
  by_pipe : EndedWell child timeout → child.output ≡ none → Blocked child timeout

ended_well_ok :
    (prog : Text) (args : List Text) (seconds : ℕ) (waited : Result (Option ExitStatus))
    → ended_well prog args seconds waited ≡ ok tt
    → (st : ExitStatus) × (waited ≡ ok (some st)) × (st.success ≡ true)
unfolding ended_well
ended_well_ok prog args seconds waited e =
    let (in_time, e1, r1) = >>=-eq-ok (message_of _ waited) _ e in
    let (st, e2, e3) = >>=-eq-ok (ok_or in_time _) _ r1 in
    (st, message_of_ok waited _ e1 ∙ ap ok (ok_or_ok in_time _ e2), guard_ok st.success _ e3)

-- Whatever comes of the read of the output.
abbrev Explained : Child → ℕ → Outcome (Result Text) → Type 0
Explained child timeout (returns (ok text)) = Captured child timeout text
Explained child timeout (returns (err e)) = Unit
Explained child timeout hangs = Blocked child timeout

joined-Explained :
    (child : Child) (timeout : ℕ) (prog : Text) (o : Option (Result Bytes))
    → child.output ≡ o
    → EndedWell child timeout
    → Explained child timeout (joined prog o)
unfolding joined
joined-Explained child timeout prog none e w = by_pipe w e
joined-Explained child timeout prog (some (ok bytes)) e w = record {
  ended = w;
  bytes = bytes;
  output = e;
  is_text = refl;
}
joined-Explained child timeout prog (some (err m)) e w = tt

ended-Explained :
    (child : Child) (timeout : ℕ) (prog : Text) (r : Result (Unit {0}))
    → (r ≡ ok tt → EndedWell child timeout)
    → Explained child timeout (if_ended_well r (joined prog child.output))
ended-Explained child timeout prog (ok _) w =
    joined-Explained child timeout prog child.output refl (w refl)
ended-Explained child timeout prog (err e) w = tt

answered-Explained :
    (child : Child) (timeout n : ℕ) (prog : Text) (args : List Text) (seconds : ℕ)
    (waited : Result (Option ExitStatus))
    → ((m : ℕ) → m < n → (child.elapsed m < timeout) × (child.try_wait m ≡ ok none))
    → child.try_wait n ≡ waited
    → Explained child timeout (output_within prog args seconds child.output waited)
unfolding output_within
answered-Explained child timeout n prog args seconds waited early e =
    ended-Explained child timeout prog (ended_well prog args seconds waited) (λ well.
      let (st, w, good) = ended_well_ok prog args seconds waited well in
      record { last = n; in_time = early; status = st; answer = e ∙ w; succeeded = good })

-- Of an outcome that is there.
abbrev ResultOf : Child → ℕ → Option (Outcome (Result Text)) → Type 0
ResultOf child timeout o =
    (out : Outcome (Result Text)) × (o ≡ some out) × Explained child timeout out

killed_not_done :
    (prog : Text) (args : List Text) (seconds : ℕ) (output : Option (Result Bytes))
    → (e : Text) × (output_within prog args seconds output (ok none) ≡ returns (err e))
unfolding output_within ended_well
killed_not_done prog args seconds output = (_, refl)

killed-Explained :
    (child : Child) (timeout n : ℕ) (prog : Text) (args : List Text) (seconds : ℕ) (reaped : Bool)
    → child.reaped ≡ reaped
    → child.try_wait n ≡ ok none
    → timeout ≤ child.elapsed n
    → ResultOf child timeout
        (then_waited (output_within prog args seconds child.output) (some (after_kill reaped)))
unfolding after_kill
killed-Explained child timeout n prog args seconds false e asked late =
    (hangs, refl, by_wait n asked late e)
killed-Explained child timeout n prog args seconds true e asked late =
    let (m, out) = killed_not_done prog args seconds child.output in
    (returns (err m), ap some out, tt)

-- For a clock that moves on by 100 ms or more in each round, and a child that was started,
-- `capture_within` comes back, unless a child that was killed at the deadline is never reaped, or a
-- child that ended well and in time has left its standard output open in another process for ever. An
-- output that it comes back with is the text of all that a child wrote which ended well, every earlier
-- round being within the time limit.
pub capture_within-Captured :
    (child : Child)
    → ((n : ℕ) → child.elapsed n + 100 ≤ child.elapsed (suc n))
    → (prog : Text) (args : List Text) (seconds : ℕ)
    → (out : Outcome (Result Text)) × (capture_within prog args (ok child) seconds ≡ some out)
      × (out ≡ hangs → Blocked child (1000 * seconds))
      × ((text : Text) → out ≡ returns (ok text) → Captured child (1000 * seconds) text)
unfolding capture_within
capture_within-Captured child advances prog args seconds =
    let timeout = 1000 * seconds in
    let f = output_within prog args seconds child.output in
    let (waited, last, w, ends) = wait_deadline-Ends child timeout advances in
    let (out, e, why) =
      elim ends.ends as (λ _. ResultOf child timeout (then_waited f (some waited))) [
        | inl (m, asked, is_out) ↦
            subst (λ x. ResultOf child timeout (then_waited f (some x))) (sym is_out)
              (
                f (err m),
                refl,
                answered-Explained child timeout last prog args seconds (err m) ends.in_time asked,
              )
        | inr (inl (st, asked, is_out)) ↦
            subst (λ x. ResultOf child timeout (then_waited f (some x))) (sym is_out)
              (
                f (ok (some st)),
                refl,
                answered-Explained child timeout last prog args seconds (ok (some st)) ends.in_time
                    asked,
              )
        | inr (inr (asked, late, is_out)) ↦
            subst (λ x. ResultOf child timeout (then_waited f (some x))) (sym is_out)
              (killed-Explained child timeout last prog args seconds child.reaped refl asked late)
      ] in
    (
      out,
      ap (then_waited f) w ∙ e,
      λ h. subst (Explained child timeout) h why,
      λ text h. subst (Explained child timeout) h why,
    )
