-- ===== src/Utf8/Scalars.antt =====
-- What `String::from_utf8_lossy` gives are Unicode scalar values.
use agenticlinux.Prelude.{
  ℕ, zero, suc, ◌+◌, ◌-◌, ◌*◌, ◌≤◌, ◌<◌, ◌==◌, ◌≡◌, ◌⊎◌, inl, inr, true, [], ◌∷◌, some, arith, All,
  All-append, Bool-cases, some_injective, subst, if◌then◌else◌,
}
use agenticlinux.Text.{Text, equal}
use agenticlinux.Utf8.{
  Bytes, Pending, ready, more, lead, continue, step, decode, from_utf8_lossy, from_utf8, encode,
  within,
}
use agenticlinux.Utf8.RoundTrip.{IsScalar}

-- With the last byte but `n` counted, the bits are from `a` to `b`: all completions are scalar values.
abbrev Whole : ℕ → ℕ → ℕ → Type 0
Whole zero a b = ⊥
Whole (suc zero) a b = (b < 0xd800) ⊎ ((0xdfff < a) × (b < 0x110000))
Whole (suc (suc zero)) a b = (b * 64 + 63 < 0xd800) ⊎ ((0xdfff < a * 64) × (b * 64 + 63 < 0x110000))
Whole (suc (suc (suc zero))) a b = (0xdfff < a * 4096) × (b * 4096 + 4095 < 0x110000)
Whole (suc (suc (suc (suc n)))) a b = ⊥

abbrev WellPending : Pending → Type 0
WellPending ready = Unit
WellPending (more bits n lo hi) =
    (0x80 ≤ lo) × (hi ≤ 0xbf) × Whole n (bits * 64 + (lo - 0x80)) (bits * 64 + (hi - 0x80))

abbrev Fine : Text × Pending → Type 0
Fine (out, p) = All IsScalar out × WellPending p

Fine-more :
    (bits n lo hi : ℕ)
    → 0x80 ≤ lo
    → hi ≤ 0xbf
    → Whole n (bits * 64 + (lo - 0x80)) (bits * 64 + (hi - 0x80))
    → Fine ([], more bits n lo hi)
Fine-more bits n lo hi a b c = (tt, (a, b, c))

Fine-two : (b : ℕ) → 0xc2 ≤ b → b ≤ 0xdf → Fine ([], more (b - 0xc0) 1 0x80 0xbf)
Fine-two b h k = (tt, (omega arith, omega arith, inl (omega arith)))

Fine-three :
    (b : ℕ)
    → 0xe0 ≤ b
    → b ≤ 0xef
    → Fine (
      [],
      more (b - 0xe0) 2 (if b == 0xe0 then 0xa0 else 0x80) (if b == 0xed then 0x9f else 0xbf),
    )
Fine-three b h k = ground arith

Fine-four :
    (b : ℕ)
    → 0xf0 ≤ b
    → b ≤ 0xf4
    → Fine (
      [],
      more (b - 0xf0) 3 (if b == 0xf0 then 0x90 else 0x80) (if b == 0xf4 then 0x8f else 0xbf),
    )
Fine-four b h k = ground arith

lead-Fine : (b : ℕ) → Fine (lead b)
unfolding lead
lead-Fine b = ground (arith, Fine-two b, Fine-three b, Fine-four b)

continue-Fine :
    (n bits lo hi b : ℕ)
    → WellPending (more bits n lo hi)
    → lo ≤ b
    → b ≤ hi
    → Fine (continue (bits * 64 + (b - 0x80)) n)
continue-Fine zero bits lo hi b (_, _, w) h k = absurd w
continue-Fine (suc zero) bits lo hi b (l, u, w) h k = ((ground (arith, w, l, h, k), tt), tt)
continue-Fine (suc (suc zero)) bits lo hi b (l, u, w) h k =
    (tt, (omega arith, omega arith, ground (arith, w, l, h, k)))
continue-Fine (suc (suc (suc zero))) bits lo hi b (l, u, w) h k =
    (tt, (omega arith, omega arith, ground (arith, w, l, h, k)))
continue-Fine (suc (suc (suc (suc n)))) bits lo hi b (_, _, w) h k = absurd w

within_le : (lo hi b : ℕ) → within lo hi b ≡ true → (lo ≤ b) × (b ≤ hi)
within_le lo hi b h = ground (arith, h)

step-Fine : (p : Pending) (b : ℕ) → WellPending p → Fine (step p b)
unfolding step
step-Fine ready b w = lead-Fine b
step-Fine (more bits n lo hi) b w = elim (Bool-cases (within lo hi b)) [
  | inl inside ↦
      let (h, k) = within_le lo hi b inside in rw inside (continue-Fine n bits lo hi b w h k)
  | inr outside ↦ rw outside ((inr (omega arith), (lead-Fine b).0), (lead-Fine b).1)
]

decode-IsScalar : (p : Pending) (bs : Bytes) → WellPending p → All IsScalar (decode p bs)
unfolding decode
decode-IsScalar ready [] w = tt
decode-IsScalar (more bits n lo hi) [] w = (inr (omega arith), tt)
decode-IsScalar ready (b ∷ bs) w =
    All-append IsScalar (step ready b).0 (decode (step ready b).1 bs) (step-Fine ready b w).0
      (decode-IsScalar (step ready b).1 bs (step-Fine ready b w).1)
decode-IsScalar (more bits n lo hi) (b ∷ bs) w =
    let p = more bits n lo hi in
    All-append IsScalar (step p b).0 (decode (step p b).1 bs) (step-Fine p b w).0
      (decode-IsScalar (step p b).1 bs (step-Fine p b w).1)

from_utf8_lossy_of : (bs : Bytes) {s : Text} → from_utf8 bs ≡ some s → from_utf8_lossy bs ≡ s
unfolding from_utf8
from_utf8_lossy_of bs h = elim (Bool-cases (equal (encode (from_utf8_lossy bs)) bs)) [
  | inl same ↦ some_injective (rw same at h)
  | inr other ↦ absurd (cc (rw other at h))
]

pub from_utf8-IsScalar : (bs : Bytes) {s : Text} → from_utf8 bs ≡ some s → All IsScalar s
unfolding from_utf8 from_utf8_lossy
from_utf8-IsScalar bs h =
    subst (All IsScalar) (from_utf8_lossy_of bs h) (decode-IsScalar ready bs tt)
