-- ===== src/Text/DecimalLaws.antt =====
-- `n.to_string()` against `parse`.
use agenticlinux.Prelude.{
  ℕ, zero, suc, ◌+◌, ◌-◌, ◌*◌, ◌/◌, ◌%◌, ◌^◌, ◌<◌, ◌≤◌, ◌≡◌, refl, ◌∙◌, inl, inr, true, false, [],
  ◌∷◌, ◌++◌, some, arith, ltb, ◌==◌, Bool-cases, ltb→lt,
}
use mathlib.Core.List.{append_assoc, append-nil}
use agenticlinux.Text.{Text, is_ascii_digit, all}
use agenticlinux.Text.Laws.{all-append}
use agenticlinux.Prelude.Int.{pos}
use agenticlinux.Text.Decimal.{digits_fuel, to_string, parse_digits, parse_unsigned, parse_i32}

pub parse_digits-cons :
    (bound acc d n : ℕ) (s : Text)
    → d < 10
    → n ≡ acc * 10 + d
    → n ≤ bound
    → parse_digits bound acc ((d + 48) ∷ s) ≡ parse_digits bound n s
unfolding parse_digits
parse_digits-cons bound acc d n s h e k = ground arith

parse_digits-digits_fuel :
    (bound f n : ℕ) (rest : Text)
    → n < f
    → n ≤ bound
    → parse_digits bound 0 (digits_fuel f n ++ rest) ≡ parse_digits bound n rest
unfolding digits_fuel
parse_digits-digits_fuel bound zero n rest h k = elim h [ ]
parse_digits-digits_fuel bound (suc f) n rest h k = elim (Bool-cases (ltb n 10)) [
  | inl small ↦ rw small (parse_digits-cons bound 0 n n rest (ltb→lt n 10 small) (omega arith) k)
  | inr big ↦
      rw
        (
          big,
          append_assoc,
          parse_digits-digits_fuel bound f (n / 10) _ (ground arith) (omega arith),
        )
        (parse_digits-cons bound (n / 10) (n % 10) n rest (omega arith) (omega arith) k)
]

all-digits_fuel : (f n : ℕ) → all is_ascii_digit (digits_fuel f n) ≡ true
unfolding digits_fuel all is_ascii_digit
all-digits_fuel zero n = refl
all-digits_fuel (suc f) n = elim (Bool-cases (ltb n 10)) [
  | inl small ↦ ground arith
  | inr big ↦ rw (big, all-append, all-digits_fuel f (n / 10)) (ground arith)
]

pub all-to_string : (n : ℕ) → all is_ascii_digit (to_string n) ≡ true
unfolding to_string
all-to_string n = all-digits_fuel (suc n) n

digits_fuel-head :
    (f n : ℕ) → n < f → (c : ℕ) × (s : Text) × (digits_fuel f n ≡ c ∷ s) × (is_ascii_digit c ≡ true)
unfolding digits_fuel is_ascii_digit
digits_fuel-head zero n h = elim h [ ]
digits_fuel-head (suc f) n h = elim (Bool-cases (ltb n 10)) [
  | inl small ↦ (n + 48, [], rw small, ground arith)
  | inr big ↦
      let (c, s, e, d) = digits_fuel-head f (n / 10) (ground arith) in
      (c, s ++ (n % 10 + 48) ∷ [], rw (big, e), d)
]

pub to_string-head :
    (n : ℕ) → (c : ℕ) × (s : Text) × (to_string n ≡ c ∷ s) × (is_ascii_digit c ≡ true)
unfolding to_string
to_string-head n = digits_fuel-head (suc n) n (omega arith)

parse_digits-to_string : (bound n : ℕ) → n ≤ bound → parse_digits bound 0 (to_string n) ≡ some n
unfolding to_string
parse_digits-to_string bound n h =
    rw (← append-nil (digits_fuel (suc n) n))
      (parse_digits-digits_fuel bound (suc n) n [] (omega arith) h ∙ unfold parse_digits in refl)

parse_unsigned_digit :
    (bound c : ℕ) (s : Text)
    → is_ascii_digit c ≡ true
    → parse_unsigned bound (c ∷ s) ≡ parse_digits bound 0 (c ∷ s)
unfolding parse_unsigned is_ascii_digit
parse_unsigned_digit bound c s d = ground arith

-- What `to_string` writes, `parse` reads, for every value of the type.
pub parse_unsigned-to_string :
    (bound n : ℕ) → n ≤ bound → parse_unsigned bound (to_string n) ≡ some n
parse_unsigned-to_string bound n h =
    let (c, s, e, d) = to_string-head n in
    rw (e, parse_unsigned_digit bound c s d) (rw e at (parse_digits-to_string bound n h))

digit_not_minus : (c : ℕ) → is_ascii_digit c ≡ true → (c == b'-') ≡ false
unfolding is_ascii_digit
digit_not_minus c d = ground arith

parse_i32_digit :
    (c : ℕ) (s : Text) (n : ℕ)
    → is_ascii_digit c ≡ true
    → parse_unsigned (2 ^ 31 - 1) (c ∷ s) ≡ some n
    → parse_i32 (c ∷ s) ≡ some (pos n)
unfolding parse_i32
parse_i32_digit c s n d h = rw (digit_not_minus c d, h) refl

pub parse_i32-to_string : (n : ℕ) → n < 2 ^ 31 → parse_i32 (to_string n) ≡ some (pos n)
parse_i32-to_string n h =
    let (c, s, e, d) = to_string-head n in
    rw e (parse_i32_digit c s n d (rw e at (parse_unsigned-to_string (2 ^ 31 - 1) n (omega arith))))
