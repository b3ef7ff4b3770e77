-- ===== src/State/Find.antt =====
-- The places where `find` of a text finds its pattern.
use mathlib.Core.List.{append_assoc}
use agenticlinux.Prelude.{
  ℕ, zero, suc, ◌≤◌, ◌≡◌, refl, sym, ◌∙◌, inl, inr, Bool, true, false, [], ◌∷◌, ◌++◌, none, some,
  arith, length, drop, length-append, Bool-cases, ◌&&◌, not, &&_split,
}
use agenticlinux.Text.{Text, starts_with, find, has_char}

-- The pattern starts at none of the first `k` places.
abbrev pub NoneBefore : Text → ℕ → Text → Type 0
NoneBefore p zero s = Unit
NoneBefore p (suc k) [] = Unit
NoneBefore p (suc k) (c ∷ s) = (starts_with (c ∷ s) p ≡ false) × NoneBefore p k s

pub NoneBefore-le : (p s : Text) (j k : ℕ) → j ≤ k → NoneBefore p k s → NoneBefore p j s
NoneBefore-le p s zero k h n = tt
NoneBefore-le p s (suc j) zero h n = absurd (omega arith)
NoneBefore-le p [] (suc j) (suc k) h n = tt
NoneBefore-le p (c ∷ s) (suc j) (suc k) h n = (n.0, NoneBefore-le p s j k (omega arith) n.1)

not-true : {b : Bool} → not b ≡ true → b ≡ false
not-true {b = true} h = cc
not-true {b = false} h = refl

pub find_at :
    (p s : Text) (k : ℕ)
    → k ≤ length s
    → NoneBefore p k s
    → starts_with (drop k s) p ≡ true
    → find s p ≡ some k
unfolding find
find_at p [] zero h n t = rw t refl
find_at p [] (suc k) h n t = absurd (omega arith)
find_at p (c ∷ s) zero h n t = rw t refl
find_at p (c ∷ s) (suc k) h n t = rw (n.0, find_at p s k (omega arith) n.1 t) refl

find_zero : (p : Text) (c : ℕ) (s : Text) → find (c ∷ s) p ≡ some 0 → starts_with (c ∷ s) p ≡ true
unfolding find
find_zero p c s h = elim (Bool-cases (starts_with (c ∷ s) p)) [
  | inl e ↦ e
  | inr e ↦ ground (arith, h, e)
]

find-suc :
    (p : Text) (c : ℕ) (s : Text) (k : ℕ)
    → find (c ∷ s) p ≡ some (suc k)
    → (starts_with (c ∷ s) p ≡ false) × (find s p ≡ some k)
unfolding find
find-suc p c s k h = elim (Bool-cases (starts_with (c ∷ s) p)) [
  | inl e ↦ ground (arith, h, e)
  | inr e ↦ (e, ground (arith, h, e))
]

pub find-some :
    (p s : Text) (k : ℕ)
    → find s p ≡ some k
    → (k ≤ length s) × NoneBefore p k s × (starts_with (drop k s) p ≡ true)
unfolding find
find-some p [] zero h = (omega arith, tt, ground (arith, h))
find-some p [] (suc k) h = ground (arith, h)
find-some p (c ∷ s) zero h = (omega arith, tt, find_zero p c s h)
find-some p (c ∷ s) (suc k) h =
    let (differs, later) = find-suc p c s k h in
    let (bound, before, here) = find-some p s k later in (omega arith, (differs, before), here)

pub find-none : (p s : Text) (k : ℕ) → find s p ≡ none → NoneBefore p k s
unfolding find
find-none p s zero h = tt
find-none p [] (suc k) h = tt
find-none p (c ∷ s) (suc k) h = elim (Bool-cases (starts_with (c ∷ s) p)) [
  | inl e ↦ ground (arith, h, e)
  | inr e ↦ (e, find-none p s k (ground (arith, h, e)))
]

-- Whether a text starts with a pattern is decided by as many characters as the pattern has.
pub starts_with_local :
    (p u y z : Text) → length p ≤ length u → starts_with (u ++ y) p ≡ starts_with (u ++ z) p
unfolding starts_with
starts_with_local [] u y z h = refl
starts_with_local (x ∷ p) [] y z h = absurd (omega arith)
starts_with_local (x ∷ p) (c ∷ u) y z h = rw (starts_with_local p u y z (omega arith)) refl

starts_with_mid :
    (p : Text) (c : ℕ) (a x y z : Text)
    → length p ≤ length x
    → starts_with (c ∷ (a ++ (x ++ y))) p ≡ starts_with (c ∷ (a ++ (x ++ z))) p
starts_with_mid p c a x y z h =
    rw (← append_assoc a x y, ← append_assoc a x z)
      (starts_with_local p (c ∷ (a ++ x)) y z (omega (arith, length-append a x)))

pub NoneBefore-local :
    (p a x y z : Text)
    → length p ≤ length x
    → NoneBefore p (length a) (a ++ (x ++ y))
    → NoneBefore p (length a) (a ++ (x ++ z))
NoneBefore-local p [] x y z h n = tt
NoneBefore-local p (c ∷ a) x y z h n =
    (starts_with_mid p c a x z y h ∙ n.0, NoneBefore-local p a x y z h n.1)

-- No pattern without a newline runs across one.
pub starts_with_newline :
    (p u r : Text) → has_char b'\n' p ≡ false → starts_with (u ++ b'\n' ∷ r) p ≡ starts_with u p
unfolding starts_with has_char
starts_with_newline [] u r h = refl
starts_with_newline (x ∷ p) [] r h = ground (arith, h)
starts_with_newline (x ∷ p) (c ∷ u) r h = ground (arith, starts_with_newline p u r)

module _ (p : Text) (nonempty : starts_with [] p ≡ false) (plain : has_char b'\n' p ≡ false) where
  NoneBefore_start : (r : Text) → starts_with (b'\n' ∷ r) p ≡ false
  NoneBefore_start r = starts_with_newline p [] r plain ∙ nonempty

  -- Behind a text without the pattern, a newline keeps it out, whatever follows.
  pub NoneBefore-newline :
      (a r : Text) → NoneBefore p (length a) a → NoneBefore p (suc (length a)) (a ++ b'\n' ∷ r)
  NoneBefore-newline [] r n = (NoneBefore_start r, tt)
  NoneBefore-newline (x ∷ a) r n =
      (starts_with_newline p (x ∷ a) r plain ∙ n.0, NoneBefore-newline a r n.1)

  -- So too if the newline was there before.
  pub NoneBefore-after_newline :
      (a r : Text)
      → NoneBefore p (suc (length a)) (a ++ b'\n' ∷ [])
      → NoneBefore p (suc (length a)) (a ++ b'\n' ∷ r)
  NoneBefore-after_newline [] r n = (NoneBefore_start r, tt)
  NoneBefore-after_newline (x ∷ a) r n = (
    starts_with_newline p (x ∷ a) r plain ∙ sym (starts_with_newline p (x ∷ a) [] plain) ∙ n.0,
    NoneBefore-after_newline a r n.1,
  )

-- Two stretches one behind the other.
pub NoneBefore-append :
    (p a b s : Text)
    → NoneBefore p (length a) (a ++ (b ++ s))
    → NoneBefore p (length b) (b ++ s)
    → NoneBefore p (length (a ++ b)) (a ++ (b ++ s))
NoneBefore-append p [] b s n m = m
NoneBefore-append p (c ∷ a) b s n m = (n.0, NoneBefore-append p a b s n.1 m)

-- The same as a test, for texts that are written out.
unfoldable pub none_before : Text → ℕ → Text → Bool
unfolding starts_with
none_before p zero s = true
none_before p (suc k) [] = true
none_before p (suc k) (c ∷ s) = not (starts_with (c ∷ s) p) && none_before p k s

pub none_before→NoneBefore :
    (p : Text) (k : ℕ) (s : Text) → none_before p k s ≡ true → NoneBefore p k s
unfolding none_before
none_before→NoneBefore p zero s h = tt
none_before→NoneBefore p (suc k) [] h = tt
none_before→NoneBefore p (suc k) (c ∷ s) h =
    let (differs, later) = &&_split _ _ h in (not-true differs, none_before→NoneBefore p k s later)
