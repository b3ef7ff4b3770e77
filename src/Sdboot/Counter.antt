-- ===== src/Sdboot/Counter.antt =====
-- `parse_counter`, `base_name` and `with_tries` of bootguard/src/sdboot.rs on one another's results.
use agenticlinux.Prelude.{
  ℕ, ◌≤◌, ◌≡◌, refl, ap, inl, inr, false, ◌∷◌, ◌++◌, Option, none, some, Option-cases,
}
use mathlib.Core.List.{append_assoc}
use agenticlinux.Text.{Text, codes, strip_suffix, has_char, is_ascii_digit}
use agenticlinux.Text.Laws.{
  strip_suffix-append, strip_suffix-some, has_char-append, has_char_of_all,
}
use agenticlinux.Text.Split.{rsplit_once}
use agenticlinux.Text.SplitLaws.{split_once_at, split_once-none, rsplit_once_at}
use agenticlinux.Text.Decimal.{to_string, parse_u32, u32_max}
use agenticlinux.Text.DecimalLaws.{all-to_string, parse_unsigned-to_string}
use agenticlinux.Sdboot.{
  conf, or_self, counter_of, parse_counter, base_name, before_plus, counted, with_tries,
}

-- The text between the `+` and `.conf`.
abbrev tail_of : ℕ → Option ℕ → Text
tail_of left (some done) = to_string left ++ (b'-' ∷ to_string done)
tail_of left none = to_string left

abbrev pub done_or_zero : Option ℕ → ℕ
done_or_zero (some d) = d
done_or_zero none = 0

-- Both counts are values of the type `u32`.
abbrev pub IsU32 : Option ℕ → Type 0
IsU32 (some d) = d ≤ u32_max
IsU32 none = Unit {0}

counted-split :
    (stem : Text) (left : ℕ) (done : Option ℕ)
    → counted stem left done ≡ (stem ++ b'+' ∷ tail_of left done) ++ conf
counted-split stem left (some d) = simp append_assoc
counted-split stem left none = simp append_assoc

digits_lack : (c n : ℕ) → is_ascii_digit c ≡ false → has_char c (to_string n) ≡ false
digits_lack c n h = has_char_of_all is_ascii_digit c (to_string n) (all-to_string n) h

tail_lacks_plus : (left : ℕ) (done : Option ℕ) → has_char b'+' (tail_of left done) ≡ false
unfolding is_ascii_digit has_char
tail_lacks_plus left none = digits_lack b'+' left refl
tail_lacks_plus left (some d) =
    has_char-append b'+' (to_string left) (b'-' ∷ to_string d) (digits_lack b'+' left refl)
      (digits_lack b'+' d refl)

counted-rsplit :
    (stem : Text) (left : ℕ) (done : Option ℕ)
    → rsplit_once b'+' (stem ++ b'+' ∷ tail_of left done) ≡ some (stem, tail_of left done)
counted-rsplit stem left done =
    rsplit_once_at b'+' stem (tail_of left done) (tail_lacks_plus left done)

parse_u32-to_string : (n : ℕ) → n ≤ u32_max → parse_u32 (to_string n) ≡ some n
unfolding parse_u32
parse_u32-to_string n h = parse_unsigned-to_string u32_max n h

zero_read : parse_u32 (codes "0") ≡ some 0
unfolding parse_u32
zero_read = refl

counter_of-tail :
    (stem : Text) (left : ℕ) (done : Option ℕ)
    → left ≤ u32_max
    → IsU32 done
    → counter_of (some (stem, tail_of left done)) ≡ some (left, done_or_zero done)
unfolding is_ascii_digit
counter_of-tail stem left none h k =
    rw
      (
        split_once-none b'-' (to_string left) (digits_lack b'-' left refl),
        parse_u32-to_string left h,
        zero_read,
      )
      refl
counter_of-tail stem left (some d) h k =
    rw
      (
        split_once_at b'-' (to_string left) (to_string d) (digits_lack b'-' left refl),
        parse_u32-to_string left h,
        parse_u32-to_string d k,
      )
      refl

parse_counter_at :
    (file stem : Text) (p : Text × Text)
    → strip_suffix file conf ≡ some stem
    → rsplit_once b'+' stem ≡ some p
    → parse_counter file ≡ counter_of (some p)
unfolding parse_counter
parse_counter_at file stem p h k = rw (h, parse_counter) (ap counter_of k)

parse_counter-counted :
    (stem : Text) (left : ℕ) (done : Option ℕ)
    → left ≤ u32_max
    → IsU32 done
    → parse_counter (counted stem left done) ≡ some (left, done_or_zero done)
parse_counter-counted stem left done h k =
    rw
      (
        counted-split stem left done,
        parse_counter_at _ _ _ (strip_suffix-append _ conf) (counted-rsplit stem left done),
      )
      (counter_of-tail stem left done h k)

base_name-counted :
    (stem : Text) (left : ℕ) (done : Option ℕ)
    → left ≤ u32_max
    → IsU32 done
    → base_name (counted stem left done) ≡ stem ++ conf
unfolding base_name
base_name-counted stem left done h k =
    rw
      (
        parse_counter-counted stem left done h k,
        counted-split stem left done,
        strip_suffix-append,
        counted-rsplit stem left done,
      )
      refl

-- Whatever the file was called, the counter that `with_tries` puts in its name is the one that
-- `parse_counter` reads; without a count of attempts done it reads 0 of them.
pub parse_counter-with_tries :
    (file : Text) (left : ℕ) (done : Option ℕ)
    → left ≤ u32_max
    → IsU32 done
    → parse_counter (with_tries file left done) ≡ some (left, done_or_zero done)
unfolding with_tries
parse_counter-with_tries file left done h k = parse_counter-counted _ left done h k

base_name-conf :
    (file stem : Text)
    → strip_suffix file conf ≡ some stem
    → (s : Text) × (base_name file ≡ s ++ conf)
unfolding base_name
base_name-conf file stem h = elim (Option-cases (parse_counter file)) [
  | inl e ↦ (stem, rw (h, e) (strip_suffix-some file conf stem h))
  | inr (n, e) ↦ (before_plus stem (rsplit_once b'+' stem), rw (h, e) refl)
]

base_name-again :
    (file stem : Text) (left : ℕ) (done : Option ℕ)
    → strip_suffix file conf ≡ some stem
    → left ≤ u32_max
    → IsU32 done
    → base_name (with_tries file left done) ≡ base_name file
unfolding with_tries
base_name-again file stem left done e h k =
    let (s, b) = base_name-conf file stem e in
    rw (b, strip_suffix-append s conf) (base_name-counted s left done h k)

-- Of a file named `*.conf`, stripping a new counter gives what stripping the counter of the file's own
-- name gives, and so a counter that is set again takes the place of the one that was set; for counts
-- that are u32 values.
pub base_name-with_tries :
    (file stem : Text) (left : ℕ) (done : Option ℕ)
    → strip_suffix file conf ≡ some stem
    → left ≤ u32_max
    → IsU32 done
    → (base_name (with_tries file left done) ≡ base_name file)
      × ((left' : ℕ) (done' : Option ℕ)
          → with_tries (with_tries file left done) left' done' ≡ with_tries file left' done')
base_name-with_tries file stem left done e h k =
    let same = base_name-again file stem left done e h k in
    (
      same,
      λ left' done'.
          unfold with_tries in ap (λ b. counted (or_self b (strip_suffix b conf)) left' done') same,
    )
