-- ===== src/Preflight/Sums.antt =====
-- `byte_sum` of bootguard/src/preflight.rs against its description, a sum of bytes.
use agenticlinux.Prelude.{
  ℕ, zero, suc, ◌+◌, ◌-◌, ◌%◌, ◌^◌, ◌≤◌, ◌<◌, ◌≡◌, ◌⊎◌, refl, ◌∙◌, ap, sym, inl, inr, min, List, [],
  ◌∷◌, ◌++◌, none, ok, err, arith, leb, le→leb, lt→leb, length, take, drop, if◌then◌else◌,
}
use agenticlinux.Text.{codes}
use agenticlinux.Utf8.{Bytes}
use agenticlinux.Preflight.Cpio.{File, read_exact_at, wrapping_sum, sum_from, byte_sum, chunk}

-- The plain sum.
unfoldable pub total : Bytes → ℕ
total [] = 0
total (b ∷ bs) = b + total bs

wrapping_sum_lem : (s : ℕ) (b : Bytes) → s < 2 ^ 32 → wrapping_sum s b ≡ (s + total b) % 2 ^ 32
unfolding wrapping_sum total
wrapping_sum_lem s [] h = omega arith
wrapping_sum_lem s (x ∷ b) h = wrapping_sum_lem ((s + x) % 2 ^ 32) b (omega arith) ∙ omega arith

wrapping_sum-append :
    (s : ℕ) (a b : Bytes) → wrapping_sum s (a ++ b) ≡ wrapping_sum (wrapping_sum s a) b
unfolding wrapping_sum
wrapping_sum-append s [] b = refl
wrapping_sum-append s (x ∷ a) b = wrapping_sum-append ((s + x) % 2 ^ 32) a b

module _ {ℓ} {A : Type ℓ} where
  take_nil : (m : ℕ) → ◌≡◌ {A = List A} (take m []) []
  take_nil zero = refl
  take_nil (suc m) = refl

  drop_nil : (m : ℕ) → ◌≡◌ {A = List A} (drop m []) []
  drop_nil zero = refl
  drop_nil (suc m) = refl

  take_split : (k m n : ℕ) (xs : List A) → n ≡ k + m → take n xs ≡ take k xs ++ take m (drop k xs)
  take_split zero m n xs e = ap (λ i. take i xs) (omega (arith, e))
  take_split (suc k) m zero xs e = absurd (omega (arith, e))
  take_split (suc k) m (suc n) [] e = sym (take_nil m)
  take_split (suc k) m (suc n) (x ∷ xs) e = ap (λ r. x ∷ r) (take_split k m n xs (omega (arith, e)))

  drop_split : (k m n : ℕ) (xs : List A) → n ≡ k + m → drop m (drop k xs) ≡ drop n xs
  drop_split zero m n xs e = ap (λ i. drop i xs) (omega (arith, e))
  drop_split (suc k) m zero xs e = absurd (omega (arith, e))
  drop_split (suc k) m (suc n) [] e = drop_nil m
  drop_split (suc k) m (suc n) (x ∷ xs) e = drop_split k m n xs (omega (arith, e))

-- No read meets an error of its own.
abbrev pub NoFaults : File → Type 0
NoFaults f = (off n : ℕ) → f.fault off n ≡ none

read_exact_at_within :
    (f : File) (off n : ℕ)
    → NoFaults f
    → off + n ≤ length f.content
    → read_exact_at f off n ≡ ok (take n (drop off f.content))
unfolding read_exact_at
read_exact_at_within f off n ok_reads h =
    rw (ok_reads off n, le→leb (off + n) (length f.content) h, read_exact_at) refl

read_exact_at_beyond :
    (f : File) (off n : ℕ)
    → NoFaults f
    → length f.content < off + n
    → read_exact_at f off n ≡ err (codes "failed to fill whole buffer")
unfolding read_exact_at
read_exact_at_beyond f off n ok_reads h =
    rw (ok_reads off n, lt→leb (off + n) (length f.content) h, read_exact_at) refl

sum_from_within :
    (fuel : ℕ) (f : File) (off n sum : ℕ)
    → NoFaults f
    → n ≤ fuel
    → off + n ≤ length f.content
    → sum_from fuel f off n sum ≡ ok (wrapping_sum sum (take n (drop off f.content)))
unfolding sum_from wrapping_sum
sum_from_within fuel f off zero sum ok_reads hf h = refl
sum_from_within zero f off (suc n) sum ok_reads hf h = absurd (omega (arith, hf))
sum_from_within (suc fuel) f off (suc n) sum ok_reads hf h =
    let k = min (suc n) chunk in
    let rest = suc n - k in
    let bytes = drop off f.content in
    rw (read_exact_at_within f off k ok_reads (omega (arith, h))) (
      sum_from_within fuel f (off + k) rest (wrapping_sum sum (take k bytes)) ok_reads
        (omega (arith, hf)) (omega (arith, h))
      ∙ ap ok (
          rw
            (
              sym (drop_split off k (off + k) f.content refl),
              take_split k rest (suc n) bytes (omega arith),
              wrapping_sum-append sum (take k bytes) (take rest (drop k bytes)),
            )
            refl))

le_lt : (a b : ℕ) → (a ≤ b) ⊎ (b < a)
le_lt a b = ground arith

sum_from_beyond :
    (fuel : ℕ) (f : File) (off n sum : ℕ)
    → NoFaults f
    → n ≤ fuel
    → off ≤ length f.content
    → length f.content < off + n
    → sum_from fuel f off n sum ≡ err (codes "failed to fill whole buffer")
unfolding sum_from
sum_from_beyond fuel f off zero sum ok_reads hf lo hi = absurd (omega (arith, lo, hi))
sum_from_beyond zero f off (suc n) sum ok_reads hf lo hi = absurd (omega (arith, hf))
sum_from_beyond (suc fuel) f off (suc n) sum ok_reads hf lo hi =
    let k = min (suc n) chunk in
    elim (le_lt (off + k) (length f.content)) [
      | inl h ↦ rw (read_exact_at_within f off k ok_reads h) (
          sum_from_beyond fuel f (off + k) (suc n - k)
            (wrapping_sum sum (take k (drop off f.content))) ok_reads (omega (arith, hf)) h
            (omega (arith, hi)))
      | inr h ↦ rw (read_exact_at_beyond f off k ok_reads h) refl
    ]

-- Where no read fails, `byte_sum` is the sum modulo 2^32 of the `n` bytes at an offset inside the
-- file, however many chunks they take, and the error of a short read if the file has not that many.
pub byte_sum_lem :
    (f : File) (off n : ℕ)
    → NoFaults f
    → off ≤ length f.content
    → byte_sum f off n ≡ (
        if leb (off + n) (length f.content)
        then ok (total (take n (drop off f.content)) % 2 ^ 32)
        else err (codes "failed to fill whole buffer"))
unfolding byte_sum
byte_sum_lem f off n ok_reads lo = elim (le_lt (off + n) (length f.content)) [
  | inl h ↦ rw (le→leb _ _ h) (
      sum_from_within n f off n 0 ok_reads (omega arith) h
      ∙ ap ok (wrapping_sum_lem 0 (take n (drop off f.content)) (omega arith) ∙ omega arith))
  | inr h ↦ rw (lt→leb _ _ h) (sum_from_beyond n f off n 0 ok_reads (omega arith) lo h)
]
