-- ===== src/Sys/DeadlineLaws.antt =====
-- The waiting loop of bootguard/src/sys.rs ends, and how.
use agenticlinux.Prelude.{
  ℕ, zero, suc, ◌+◌, ◌*◌, ◌/◌, ◌≤◌, ◌<◌, ◌≡◌, refl, ◌⊎◌, inl, inr, Bool, true, false, Option, none,
  some, Result, ok, err, leb, leb→le, ltb, ltb→lt, Bool-cases, List, arith,
}
use agenticlinux.Sys.Deadline.{
  ExitStatus, Child, Waited, ended, after_kill, unless_late, round, wait_from, wait_deadline,
}

lt_split : (m n : ℕ) → m < suc n → (m < n) ⊎ (m ≡ n)
lt_split m n h = elim (Bool-cases (ltb m n)) [
  | inl less ↦ inl (ltb→lt m n less)
  | inr not_less ↦ inr (ground (arith, h, not_less))
]

-- The rounds before the last one are in time and get no answer; the last one ends the wait.
pub record Ends (child : Child) (timeout : ℕ) (out : Waited) (last : ℕ) : Type 0 where
  pub in_time : (m : ℕ) → m < last → (child.elapsed m < timeout) × (child.try_wait m ≡ ok none)
  pub ends :
      ((e : List ℕ) × (child.try_wait last ≡ err e) × (out ≡ ended (err e) false))
      ⊎ (((st : ExitStatus) × (child.try_wait last ≡ ok (some st))
            × (out ≡ ended (ok (some st)) false))
          ⊎ ((child.try_wait last ≡ ok none)
              × (timeout ≤ child.elapsed last)
              × (out ≡ after_kill child.reaped)))

module _ (child : Child) (timeout : ℕ)
    (advances : (n : ℕ) → child.elapsed n + 100 ≤ child.elapsed (suc n)) where
  abbrev ResultOf : Option Waited → Type 0
  ResultOf o = (out : Waited) × (last : ℕ) × (o ≡ some out) × Ends child timeout out last

  abbrev Quiet : ℕ → Type 0
  Quiet n = (m : ℕ) → m < n → (child.elapsed m < timeout) × (child.try_wait m ≡ ok none)

  later-Quiet :
      (n : ℕ) → Quiet n → child.elapsed n < timeout → child.try_wait n ≡ ok none → Quiet (suc n)
  later-Quiet n quiet early asked m h = elim (lt_split m n h) [
    | inl earlier ↦ quiet m earlier
    | inr same ↦ rw same (early, asked)
  ]

  round-Ends :
      (n : ℕ) (next : Option Waited) (late : Bool) (r : Result (Option ExitStatus))
      → Quiet n
      → child.try_wait n ≡ r
      → leb timeout (child.elapsed n) ≡ late
      → (r ≡ ok none → late ≡ false → ResultOf next)
      → ResultOf (round child.reaped next late r)
  unfolding round unless_late
  round-Ends n next late (err e) quiet asked clock more =
      (ended (err e) false, n, refl, record { in_time = quiet; ends = inl (e, asked, refl) })
  round-Ends n next late (ok (some st)) quiet asked clock more = (
    ended (ok (some st)) false,
    n,
    refl,
    record { in_time = quiet; ends = inr (inl (st, asked, refl)) },
  )
  round-Ends n next true (ok none) quiet asked clock more = (
    after_kill child.reaped,
    n,
    refl,
    record {
      in_time = quiet;
      ends = inr (inr (asked, leb→le timeout (child.elapsed n) clock, refl));
    },
  )
  round-Ends n next false (ok none) quiet asked clock more = more refl refl

  wait_from-Ends :
      (fuel n : ℕ)
      → timeout < child.elapsed n + 100 * fuel
      → Quiet n
      → ResultOf (wait_from (suc fuel) child timeout n)
  unfolding wait_from
  wait_from-Ends zero n room quiet =
      round-Ends n none (leb timeout (child.elapsed n)) (child.try_wait n) quiet refl refl
        (λ asked early. absurd (ground arith))
  wait_from-Ends (suc fuel) n room quiet =
      round-Ends n (wait_from (suc fuel) child timeout (suc n)) (leb timeout (child.elapsed n))
        (child.try_wait n) quiet refl refl
        (λ asked early.
          wait_from-Ends fuel (suc n) (omega (arith, advances n, room))
            (later-Quiet n quiet (ground arith) asked))

  -- For a clock that moves on by 100 ms or more in each round, the loop that waits for a child ends:
  -- with its status or an error in the first round that gets one, or with the child's group killed in
  -- the first round at the deadline or later, and then as the wait for the killed child does; every
  -- earlier round was before the deadline.
  pub wait_deadline-Ends : ResultOf (wait_deadline child timeout)
  unfolding wait_deadline
  wait_deadline-Ends =
      wait_from-Ends (timeout / 100 + 1) 0 (omega arith) (λ m h. absurd (omega arith))
