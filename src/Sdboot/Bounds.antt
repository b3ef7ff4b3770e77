-- ===== src/Sdboot/Bounds.antt =====
-- The counts that `parse_counter` of bootguard/src/sdboot.rs returns, as values of the type `u32`.
use agenticlinux.Prelude.{
  ℕ, ◌+◌, ◌*◌, ◌-◌, ◌≤◌, ◌≡◌, [], ◌∷◌, Option, none, some, arith, inl, inr, Option-cases,
}
use agenticlinux.Text.{Text, codes, strip_suffix}
use agenticlinux.Text.Split.{split_once, rsplit_once}
use agenticlinux.Text.Decimal.{parse_digits, parse_nonempty, parse_unsigned, parse_u32, u32_max}
use agenticlinux.Sdboot.{conf, both, counts, counter_of, parse_counter}

parse_digits-le :
    (bound acc : ℕ) (s : Text) {n : ℕ} → acc ≤ bound → parse_digits bound acc s ≡ some n → n ≤ bound
unfolding parse_digits
parse_digits-le bound acc [] h e = ground (arith, h, e)
parse_digits-le bound acc (c ∷ s) {n = n} h e =
    ground (arith, e, parse_digits-le bound (acc * 10 + (c - 48)) s {n = n})

parse_nonempty-le : (bound : ℕ) (s : Text) {n : ℕ} → parse_nonempty bound s ≡ some n → n ≤ bound
unfolding parse_nonempty
parse_nonempty-le bound [] e = cc
parse_nonempty-le bound (c ∷ s) e = parse_digits-le bound 0 (c ∷ s) (omega arith) e

parse_unsigned-le : (bound : ℕ) (s : Text) {n : ℕ} → parse_unsigned bound s ≡ some n → n ≤ bound
unfolding parse_unsigned
parse_unsigned-le bound [] e = cc
parse_unsigned-le bound (c ∷ s) {n = n} e =
    ground (arith, e, parse_nonempty-le bound s {n = n}, parse_nonempty-le bound (c ∷ s) {n = n})

parse_u32-le : (s : Text) {n : ℕ} → parse_u32 s ≡ some n → n ≤ u32_max
unfolding parse_u32
parse_u32-le s e = parse_unsigned-le u32_max s e

both_right : (a b : Option ℕ) {m n : ℕ} → both a b ≡ some (m, n) → b ≡ some n
both_right none none e = cc
both_right none (some y) e = cc
both_right (some x) none e = cc
both_right (some x) (some y) e = ground (arith, e)

counts-le : (c : Text) (o : Option (Text × Text)) {m n : ℕ} → counts c o ≡ some (m, n) → n ≤ u32_max
counts-le c none e = parse_u32-le (codes "0") (both_right (parse_u32 c) (parse_u32 (codes "0")) e)
counts-le c (some (l, d)) e = parse_u32-le d (both_right (parse_u32 l) (parse_u32 d) e)

counter_of-le : (o : Option (Text × Text)) {m n : ℕ} → counter_of o ≡ some (m, n) → n ≤ u32_max
counter_of-le none e = cc
counter_of-le (some (_, c)) e = counts-le c (split_once b'-' c) e

pub parse_counter-le : (file : Text) {m n : ℕ} → parse_counter file ≡ some (m, n) → n ≤ u32_max
unfolding parse_counter
parse_counter-le file e = elim (Option-cases (strip_suffix file conf)) [
  | inl n ↦ cc (rw (n, parse_counter) at e)
  | inr (stem, n) ↦ counter_of-le (rsplit_once b'+' stem) (rw (n, parse_counter) at e)
]
