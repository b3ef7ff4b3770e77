-- ===== src/State/Decision.antt =====
-- The decisions of bootguard/src/state.rs against an independent description of a trial.
use agenticlinux.Prelude.{
  ◌≡◌, ◌≢◌, ◌↔◌, Option, none, some, arith, ℕ, zero, suc, refl, ap, inl, inr, Bool-cases,
}
use agenticlinux.Prelude.Int.{ℤ, pos, negsuc}
use agenticlinux.Text.{Text, equal}
use agenticlinux.Text.Laws.{equal_iff}
use agenticlinux.State.{
  Assessment, idle, stale, trial_in_progress, exhausted, fell_back, assess, reboot,
  on_check_failure,
}

-- Attempts left after this boot's own one: what a counter that can still fall back holds.
abbrev pub HasAttempts : Option ℤ → Type 0
HasAttempts c = (n : ℕ) × (c ≡ some (pos n))

-- A trial is in progress exactly when the booted image is the target and the counter is a number
-- that is not negative.
pub assess-trial_iff :
    (counter : Option ℤ) (target : Option Text) (booted : Text)
    → (assess counter target booted ≡ trial_in_progress)
      ↔ ((target ≡ some booted) × HasAttempts counter)
unfolding assess
assess-trial_iff counter none booted = (λ h. ground arith, λ h. ground arith)
assess-trial_iff none (some t) booted = (λ h. ground (arith, equal_iff t booted), λ h. ground arith)
assess-trial_iff (some (pos n)) (some t) booted = (
  λ h. (ground (arith, equal_iff t booted), (n, ground arith)),
  λ h. ground (arith, equal_iff t booted),
)
assess-trial_iff (some (negsuc n)) (some t) booted =
    (λ h. ground (arith, equal_iff t booted), λ h. ground arith)

-- Each of the five answers says exactly what was recorded and what was booted.
abbrev pub Describes : Option ℤ → Option Text → Text → Assessment → Type 0
Describes counter target booted idle = (counter ≡ none) × (target ≡ none)
Describes counter target booted stale = (counter ≢ none) × (target ≡ none)
Describes counter target booted trial_in_progress = (target ≡ some booted) × HasAttempts counter
Describes counter target booted (exhausted t) =
    (t ≡ booted) × (target ≡ some t) × ¬ HasAttempts counter
Describes counter target booted (fell_back t) = (t ≢ booted) × (target ≡ some t)

-- Whatever was recorded and booted, the assessment describes it: idle and stale say that no target is
-- recorded, a trial in progress and an exhausted one that the target is booted, with and without a
-- counter that is not negative, and a fallback that something else is booted.
pub assess-Describes :
    (counter : Option ℤ) (target : Option Text) (booted : Text)
    → Describes counter target booted (assess counter target booted)
unfolding assess
assess-Describes none none booted = ground arith
assess-Describes (some c) none booted = ground arith
assess-Describes none (some t) booted = ground (arith, equal_iff t booted)
assess-Describes (some (pos n)) (some t) booted = elim (Bool-cases (equal t booted)) [
  | inl same ↦ rw same (ap some ((equal_iff t booted).0 same), (n, refl))
  | inr other ↦ rw other (λ e. cc (other, (equal_iff t booted).1 e), refl)
]
assess-Describes (some (negsuc n)) (some t) booted = elim (Bool-cases (equal t booted)) [
  | inl same ↦ rw same ((equal_iff t booted).0 same, refl, λ h. ground (arith, h))
  | inr other ↦ rw other (λ e. cc (other, (equal_iff t booted).1 e), refl)
]

-- After a failed check the machine reboots exactly when the counter is a number above zero, so
-- that another counted attempt is left; in every other case the rollback is done now.
pub on_check_failure_iff :
    (counter : Option ℤ)
    → (on_check_failure counter ≡ reboot) ↔ ((n : ℕ) × (counter ≡ some (pos (suc n))))
unfolding on_check_failure
on_check_failure_iff none = (λ h. ground arith, λ h. ground arith)
on_check_failure_iff (some (pos zero)) = (λ h. ground arith, λ h. ground arith)
on_check_failure_iff (some (pos (suc n))) = (λ h. (n, refl), λ h. ground arith)
on_check_failure_iff (some (negsuc n)) = (λ h. ground arith, λ h. ground arith)
