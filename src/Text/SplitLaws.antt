-- ===== src/Text/SplitLaws.antt =====
-- What `split_once`, `rsplit_once` and `lines` do at a separator, and what their results say.
use agenticlinux.Prelude.{
  ℕ, ◌≡◌, refl, inl, inr, false, [], ◌∷◌, ◌++◌, none, some, arith, Option-cases,
}
use agenticlinux.Text.{Text, has_char}
use agenticlinux.Text.Split.{lines, split_once, rsplit_once}

pub split_once_at :
    (c : ℕ) (a b : Text) → has_char c a ≡ false → split_once c (a ++ c ∷ b) ≡ some (a, b)
unfolding split_once has_char
split_once_at c [] b h = ground arith
split_once_at c (x ∷ a) b h = ground (arith, split_once_at c a b)

pub split_once-some :
    (c : ℕ) (s : Text) {a b : Text}
    → split_once c s ≡ some (a, b)
    → (s ≡ a ++ c ∷ b) × (has_char c a ≡ false)
unfolding split_once has_char
split_once-some c [] h = ground arith
split_once-some c (x ∷ s) {a} {b} h = elim (Option-cases (split_once c s)) [
  | inl e ↦ ground (arith, e)
  | inr ((l, r), e) ↦ ground (arith, split_once-some c s e)
]

pub split_once-none : (c : ℕ) (s : Text) → has_char c s ≡ false → split_once c s ≡ none
unfolding split_once has_char
split_once-none c [] h = refl
split_once-none c (x ∷ s) h = ground (arith, split_once-none c s)

pub rsplit_once-none : (c : ℕ) (s : Text) → has_char c s ≡ false → rsplit_once c s ≡ none
unfolding rsplit_once has_char
rsplit_once-none c [] h = refl
rsplit_once-none c (x ∷ s) h = ground (arith, rsplit_once-none c s)

pub rsplit_once_at :
    (c : ℕ) (a b : Text) → has_char c b ≡ false → rsplit_once c (a ++ c ∷ b) ≡ some (a, b)
unfolding rsplit_once
rsplit_once_at c [] b h = ground (arith, rsplit_once-none c b h)
rsplit_once_at c (x ∷ a) b h = rw (rsplit_once_at c a b h) refl

pub lines_at :
    (a b : Text)
    → has_char b'\n' a ≡ false
    → has_char b'\r' a ≡ false
    → lines (a ++ b'\n' ∷ b) ≡ a ∷ lines b
unfolding lines has_char
lines_at [] b h k = refl
lines_at (x ∷ a) b h k = ground (arith, lines_at a b)
