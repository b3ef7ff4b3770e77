-- ===== src/State/Lifecycle.antt =====
-- A trial over its boots: the snippet of bootguard/src/grub-custom.cfg as GRUB runs it at every boot,
-- and what bootguard/src/state.rs makes of the counter that it leaves.
use agenticlinux.Prelude.{
  ℕ, zero, suc, ◌-◌, ◌≤◌, ◌<◌, ◌≡◌, ◌⊎◌, refl, ap, inl, inr, Bool, true, false, Option, some, none,
  arith, leb, ltb, le→leb, lt→leb, if◌then◌else◌,
}
use agenticlinux.Prelude.Int.{ℤ, pos, negsuc}
use agenticlinux.Text.{Text, equal}
use agenticlinux.Text.Laws.{equal_refl}
use agenticlinux.State.{
  trial_in_progress, fell_back, assess, reboot, rollback_now, on_check_failure,
}

-- One run of the snippet: is entry 1, the previous deployment, booted, and which counter is saved?
unfoldable pub count_boot : Option ℤ → Bool × Option ℤ
count_boot none = (false, none)
count_boot (some (pos zero)) = (true, some (negsuc zero))
count_boot (some (pos (suc n))) = (false, some (pos n))
count_boot (some (negsuc zero)) = (true, some (negsuc zero))
count_boot (some (negsuc (suc n))) = (false, some (negsuc (suc (suc n))))

-- `k` boots in a row, without a change of the counter in between: the last one's choice, and the
-- counter after it.
pub data Boots (c : Option ℤ) : ℕ → Bool → Option ℤ → Type 0 where
  first : Boots c 1 (count_boot c).0 (count_boot c).1
  next :
      {k : ℕ} {f : Bool} {d : Option ℤ}
      → Boots c k f d
      → Boots c (suc k) (count_boot d).0 (count_boot d).1

-- Within the attempts, or behind them.
abbrev Counted : ℕ → ℕ → Bool → Option ℤ → Type 0
Counted n k f d =
    ((k ≤ n) × (f ≡ false) × (d ≡ some (pos (n - k))))
    ⊎ ((n < k) × (f ≡ true) × (d ≡ some (negsuc zero)))

Counted-first : (n : ℕ) → Counted n 1 (count_boot (some (pos n))).0 (count_boot (some (pos n))).1
unfolding count_boot
Counted-first zero = inr (omega arith, refl, refl)
Counted-first (suc n) = inl (omega arith, refl, ap (λ m. some (pos m)) (omega arith))

Counted-at :
    (m : ℕ) (n k : ℕ)
    → n - k ≡ m
    → k ≤ n
    → Counted n (suc k) (count_boot (some (pos m))).0 (count_boot (some (pos m))).1
unfolding count_boot
Counted-at zero n k e h = inr (omega (arith, e, h), refl, refl)
Counted-at (suc m) n k e h =
    inl (omega (arith, e, h), refl, ap (λ m. some (pos m)) (omega (arith, e, h)))

Counted-next :
    (n k : ℕ) (f : Bool) (d : Option ℤ)
    → Counted n k f d
    → Counted n (suc k) (count_boot d).0 (count_boot d).1
unfolding count_boot
Counted-next n k f d (inl (h, _, e)) = rw e (Counted-at (n - k) n k refl h)
Counted-next n k f d (inr (h, _, e)) = rw e (inr (omega (arith, h), refl, refl))

Boots-Counted : {n k : ℕ} {f : Bool} {d : Option ℤ} → Boots (some (pos n)) k f d → Counted n k f d
Boots-Counted {n = n} first = Counted-first n
Boots-Counted {n = n} (next {k = k} {f = f} {d = d} b) = Counted-next n k f d (Boots-Counted b)

assess_within :
    (target : Text) (m : ℕ) → assess (some (pos m)) (some target) target ≡ trial_in_progress
unfolding assess
assess_within target m = rw equal_refl refl

assess_behind :
    (target previous : Text)
    → equal target previous ≡ false
    → assess (some (negsuc zero)) (some target) previous ≡ fell_back target
unfolding assess
assess_behind target previous other = rw other refl

failure_within :
    (n k : ℕ)
    → k ≤ n
    → on_check_failure (some (pos (n - k))) ≡ (if ltb k n then reboot else rollback_now)
unfolding on_check_failure
failure_within n k h = ground (arith, h)

-- What follows from the count.
judged :
    (target previous : Text) (n k : ℕ) (f : Bool) (d : Option ℤ)
    → equal target previous ≡ false
    → Counted n k f d
    → (assess d (some target) (if f then previous else target)
        ≡ (if leb k n then trial_in_progress else fell_back target))
      × (on_check_failure d ≡ (if ltb k n then reboot else rollback_now))
judged target previous n k f d other (inl (h, g, e)) =
    rw (g, e, le→leb k n h) (assess_within target (n - k), failure_within n k h)
judged target previous n k f d other (inr (h, g, e)) =
    rw (g, e, lt→leb k n h) (assess_behind target previous other, behind)
  where
    behind : on_check_failure (some (negsuc zero)) ≡ (if ltb k n then reboot else rollback_now)
    behind = unfold on_check_failure in ground (arith, h)

-- A trial armed with `n` attempts, whose counter only the snippet changes, and another deployment as
-- the fallback: the first `n` boots are boots of the target in a trial in progress, of which a failed
-- check reboots all but the last, and every later boot is one of the fallback, which is told so.
pub Boots-judged :
    (target previous : Text) (n : ℕ) {k : ℕ} {f : Bool} {d : Option ℤ}
    → equal target previous ≡ false
    → Boots (some (pos n)) k f d
    → (assess d (some target) (if f then previous else target)
        ≡ (if leb k n then trial_in_progress else fell_back target))
      × (on_check_failure d ≡ (if ltb k n then reboot else rollback_now))
Boots-judged target previous n {k = k} {f = f} {d = d} other b =
    judged target previous n k f d other (Boots-Counted b)
