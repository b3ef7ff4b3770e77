-- ===== src/Text/TrimLaws.antt =====
-- `trim` on texts without whitespace.
use mathlib.Core.List.{reverse-reverse, reverse-cons}
use agenticlinux.Prelude.{ℕ, ◌≡◌, refl, true, false, [], ◌∷◌, reverse, arith, Bool, All, All-append}
use agenticlinux.Text.{
  Text, trim_start_matches, trim_matches, trim, is_whitespace, is_ascii_digit, all,
}
use agenticlinux.Text.Laws.{all_iff}

-- No character passes the test.
abbrev pub Lacks : (ℕ → Bool) → Text → Type 0
Lacks test s = All (λ c. test c ≡ false) s

Lacks-reverse : (test : ℕ → Bool) (s : Text) → Lacks test s → Lacks test (reverse s)
Lacks-reverse test [] h = tt
Lacks-reverse test (c ∷ s) h =
    rw (reverse-cons)
      (All-append (λ x. test x ≡ false) (reverse s) (c ∷ []) (Lacks-reverse test s h.1) (h.0, tt))

trim_start_same : (test : ℕ → Bool) (s : Text) → Lacks test s → trim_start_matches test s ≡ s
unfolding trim_start_matches
trim_start_same test [] h = refl
trim_start_same test (c ∷ s) h = rw h.0 refl

trim_matches_same : (test : ℕ → Bool) (s : Text) → Lacks test s → trim_matches test s ≡ s
unfolding trim_matches
trim_matches_same test s h =
    rw
      (
        trim_start_same test s h,
        trim_start_same test (reverse s) (Lacks-reverse test s h),
        reverse-reverse s,
      )
      refl

digit_not_space : (c : ℕ) → is_ascii_digit c ≡ true → is_whitespace c ≡ false
unfolding is_ascii_digit is_whitespace
digit_not_space c h = ground arith

digits_lack_space : (s : Text) → All (λ c. is_ascii_digit c ≡ true) s → Lacks is_whitespace s
digits_lack_space [] h = tt
digits_lack_space (c ∷ s) h = (digit_not_space c h.0, digits_lack_space s h.1)

pub trim_digits : (s : Text) → all is_ascii_digit s ≡ true → trim s ≡ s
unfolding trim
trim_digits s h =
    trim_matches_same is_whitespace s (digits_lack_space s ((all_iff is_ascii_digit s).0 h))
