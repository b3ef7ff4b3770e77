-- ===== src/Bootc/Line.antt =====
-- A line of `ostree admin status` as `parse_booted_is_default` of bootguard/src/bootc.rs reads it,
-- described apart from the code, and what the code trims off it.
use agenticlinux.Prelude.{
  ℕ, zero, suc, ◌≤◌, ◌<◌, length, none, some, Option-cases, ap, ◌≡◌, refl, ◌∙◌, inl, inr, true,
  List, [], ◌∷◌, ◌++◌, arith, Bool-cases, All, ◌==◌,
}
use agenticlinux.Text.{Text, codes, strip_prefix, trim_start_matches}
use agenticlinux.Text.Laws.{strip_prefix-some}
use agenticlinux.Text.Split.{split_whitespace}
use agenticlinux.Bootc.{trim_stars, unindented}

abbrev pub stars : ℕ → Text
stars zero = []
stars (suc n) = b'*' ∷ b' ' ∷ stars n

-- The line of a deployment in the boot order, with so many marks of the booted one before it: behind
-- blanks and marks stand two words or more, the second one with a dot, and the line does not say that
-- the deployment is staged.
pub record InOrder (line : Text) (marks : ℕ) : Type 0 where
  pub indent : Text
  pub rest : Text
  pub blank : All (λ c. c ≡ b' ') indent
  pub splits : line ≡ indent ++ (stars marks ++ rest)
  pub no_blank : (r : Text) → ¬ (stars marks ++ rest ≡ b' ' ∷ r)
  pub no_mark : (r : Text) → ¬ (rest ≡ b'*' ∷ b' ' ∷ r)
  pub root : Text
  pub id : Text
  pub behind : List Text
  pub words : split_whitespace rest ≡ root ∷ id ∷ behind
  pub dotted : (a : Text) × (b : Text) × (id ≡ a ++ b'.' ∷ b)
  pub not_staged : (a b : Text) → ¬ (line ≡ a ++ (codes "(staged)" ++ b))

abbrev pub NotInOrder : Text → Type 0
NotInOrder l = (n : ℕ) → ¬ (InOrder l n)

is_space_iff : (c : ℕ) → (c == b' ') ≡ true → c ≡ b' '
is_space_iff c h = ground (arith, h)

pub unindented_split :
    (l : Text)
    → (indent : Text) × All (λ c. c ≡ b' ') indent
      × (l ≡ indent ++ unindented l)
      × ((r : Text) → ¬ (unindented l ≡ b' ' ∷ r))
unfolding trim_start_matches
unindented_split [] = ([], tt, refl, λ r e. cc e)
unindented_split (c ∷ l) = elim (Bool-cases (c == b' ')) [
  | inl e ↦
      let (indent, blank, splits, no_blank) = unindented_split l in
      rw e (c ∷ indent, (is_space_iff c e, blank), ap (◌∷◌ c) splits, no_blank)
  | inr e ↦ rw e ([], tt, refl, λ r s. ground (arith, e, s))
]

pub unindented_at :
    (indent t : Text)
    → All (λ c. c ≡ b' ') indent
    → ((r : Text) → ¬ (t ≡ b' ' ∷ r))
    → unindented (indent ++ t) ≡ t
unfolding trim_start_matches
unindented_at [] [] blank no_blank = refl
unindented_at [] (c ∷ t) blank no_blank = elim (Bool-cases (c == b' ')) [
  | inl e ↦ absurd (no_blank t (ap (λ x. x ∷ t) (is_space_iff c e)))
  | inr e ↦ rw e refl
]
unindented_at (c ∷ indent) t (e, blank) no_blank = rw e (unindented_at indent t blank no_blank)

shorter : (t rest : Text) → strip_prefix t (codes "* ") ≡ some rest → length rest < length t
shorter t rest e = rw (strip_prefix-some t (codes "* ") rest e) (omega arith)

-- The fuel of `trim_stars` is enough: nothing is left to trim.
pub trim_stars_done :
    (fuel : ℕ) (t : Text) → length t ≤ fuel → strip_prefix (trim_stars fuel t) (codes "* ") ≡ none
unfolding trim_stars strip_prefix
trim_stars_done zero [] h = refl
trim_stars_done zero (c ∷ t) h = absurd (omega arith)
trim_stars_done (suc fuel) t h = elim (Option-cases (strip_prefix t (codes "* "))) [
  | inl e ↦ rw e e
  | inr (rest, e) ↦ rw e (trim_stars_done fuel rest (omega (arith, shorter t rest e)))
]

pub trim_stars_split : (fuel : ℕ) (t : Text) → (n : ℕ) × (t ≡ stars n ++ trim_stars fuel t)
unfolding trim_stars strip_prefix
trim_stars_split zero t = (0, refl)
trim_stars_split (suc fuel) t = elim (Option-cases (strip_prefix t (codes "* "))) [
  | inl e ↦ rw e (0, refl)
  | inr (rest, e) ↦
      let (n, s) = trim_stars_split fuel rest in
      rw e (suc n, strip_prefix-some t (codes "* ") rest e ∙ ap (λ x. b'*' ∷ b' ' ∷ x) s)
]

no_mark_none :
    (t : Text) → ((r : Text) → ¬ (t ≡ b'*' ∷ b' ' ∷ r)) → strip_prefix t (codes "* ") ≡ none
no_mark_none t none_such = elim (Option-cases (strip_prefix t (codes "* "))) [
  | inl e ↦ e
  | inr (r, e) ↦ absurd (none_such r (strip_prefix-some t (codes "* ") r e))
]

pub trim_stars_at :
    (n fuel : ℕ) (rest : Text)
    → ((r : Text) → ¬ (rest ≡ b'*' ∷ b' ' ∷ r))
    → n ≤ fuel
    → trim_stars fuel (stars n ++ rest) ≡ rest
unfolding trim_stars strip_prefix
trim_stars_at zero zero rest none_such h = refl
trim_stars_at zero (suc fuel) rest none_such h = rw (no_mark_none rest none_such) refl
trim_stars_at (suc n) zero rest none_such h = absurd (omega arith)
trim_stars_at (suc n) (suc fuel) rest none_such h =
    trim_stars_at n fuel rest none_such (omega (arith, h))

pub marks_fit : (n : ℕ) (rest : Text) → n ≤ length (stars n ++ rest)
marks_fit zero rest = omega arith
marks_fit (suc n) rest = omega (arith, marks_fit n rest)
