-- ===== src/Text/Decimal.antt =====
-- `{n}` in `format!`, and `str::parse` for the integer types: an optional sign, at least one digit,
-- and no value past the type's bound.
use agenticlinux.Prelude.{
  ℕ, zero, suc, ◌+◌, ◌-◌, ◌*◌, ◌/◌, ◌%◌, ◌^◌, [], ◌∷◌, ◌++◌, Option, none, some, ltb, leb, ◌==◌,
  if◌then◌else◌,
}
use agenticlinux.Prelude.Int.{ℤ, pos, negsuc}
use agenticlinux.Text.{Text, is_ascii_digit}

-- The digits of `n`, where `n` is below the fuel.
unfoldable pub digits_fuel : ℕ → ℕ → Text
digits_fuel zero n = []
digits_fuel (suc f) n =
    let more = digits_fuel f (n / 10) ++ (n % 10 + 48) ∷ [] in
    if ltb n 10 then (n + 48) ∷ [] else more

-- `n.to_string()`
unfoldable pub to_string : ℕ → Text
unfolding digits_fuel
to_string n = digits_fuel (suc n) n

-- Digits read onto `acc`; `none` at another character, or past `bound`.
unfoldable pub parse_digits : ℕ → ℕ → Text → Option ℕ
unfolding is_ascii_digit
parse_digits bound acc [] = some acc
parse_digits bound acc (c ∷ s) =
    let next = acc * 10 + (c - 48) in
    let rest = parse_digits bound next s in
    if is_ascii_digit c then (if leb next bound then rest else none) else none

unfoldable pub parse_nonempty : ℕ → Text → Option ℕ
unfolding parse_digits
parse_nonempty bound [] = none
parse_nonempty bound (c ∷ s) = parse_digits bound 0 (c ∷ s)

-- An unsigned type with the greatest value `bound`.
unfoldable pub parse_unsigned : ℕ → Text → Option ℕ
unfolding parse_nonempty
parse_unsigned bound [] = none
parse_unsigned bound (c ∷ s) =
    if c == b'+' then parse_nonempty bound s else parse_nonempty bound (c ∷ s)

abbrev pub u32_max : ℕ
u32_max = 4294967295

abbrev pub u64_max : ℕ
u64_max = 18446744073709551615

-- `s.parse::<u32>().ok()` and `u64`
unfoldable pub parse_u32 : Text → Option ℕ
unfolding parse_unsigned
parse_u32 s = parse_unsigned u32_max s

unfoldable pub parse_u64 : Text → Option ℕ
unfolding parse_unsigned
parse_u64 s = parse_unsigned u64_max s

abbrev negated : ℕ → ℤ
negated zero = pos 0
negated (suc n) = negsuc n

-- `s.parse::<i32>().ok()`
unfoldable pub parse_i32 : Text → Option ℤ
unfolding parse_nonempty
parse_i32 [] = none
parse_i32 (c ∷ s) =
    if c == b'-'
    then elim (parse_nonempty (2 ^ 31) s) [ some n ↦ some (negated n) | none ↦ none ]
    else elim (parse_unsigned (2 ^ 31 - 1) (c ∷ s)) [ some n ↦ some (pos n) | none ↦ none ]
