-- ===== src/Utf8/RoundTrip.antt =====
-- Decoding against encoding.
use agenticlinux.Prelude.{
  ℕ, ◌≤◌, ◌<◌, ◌≡◌, refl, ◌⊎◌, inl, inr, [], ◌∷◌, ◌++◌, some, arith, ltb, All, Bool-cases, ltb→lt,
}
use mathlib.Core.List.{append_assoc, append-nil}
use agenticlinux.Text.{Text}
use agenticlinux.Text.Laws.{equal_refl}
use agenticlinux.Utf8.{Bytes, encode_char, encode, ready, decode, from_utf8_lossy, from_utf8}

-- A `char`: any code point but the surrogates.
abbrev pub IsScalar : ℕ → Type 0
IsScalar c = (c < 0xd800) ⊎ ((0xdfff < c) × (c < 0x110000))

decode_one :
    (c : ℕ) (rest : Bytes) → c < 0x80 → decode ready (encode_char c ++ rest) ≡ c ∷ decode ready rest
unfolding decode encode_char
decode_one c rest h = ground arith

decode_two :
    (c : ℕ) (rest : Bytes)
    → 0x80 ≤ c
    → c < 0x800
    → decode ready (encode_char c ++ rest) ≡ c ∷ decode ready rest
unfolding decode encode_char
decode_two c rest h k = ground arith

decode_three :
    (c : ℕ) (rest : Bytes)
    → 0x800 ≤ c
    → c < 0x10000
    → IsScalar c
    → decode ready (encode_char c ++ rest) ≡ c ∷ decode ready rest
unfolding decode encode_char
decode_three c rest h k s = ground arith

decode_four :
    (c : ℕ) (rest : Bytes)
    → 0x10000 ≤ c
    → c < 0x110000
    → decode ready (encode_char c ++ rest) ≡ c ∷ decode ready rest
unfolding decode encode_char
decode_four c rest h k = ground arith

decode-encode_char :
    (c : ℕ) (rest : Bytes)
    → IsScalar c
    → decode ready (encode_char c ++ rest) ≡ c ∷ decode ready rest
decode-encode_char c rest s = elim (Bool-cases (ltb c 0x80)) [
  | inl one ↦ decode_one c rest (ltb→lt c 0x80 one)
  | inr a ↦ elim (Bool-cases (ltb c 0x800)) [
    | inl two ↦ decode_two c rest (ground arith) (ltb→lt c 0x800 two)
    | inr b ↦ elim (Bool-cases (ltb c 0x10000)) [
      | inl three ↦ decode_three c rest (ground arith) (ltb→lt c 0x10000 three) s
      | inr d ↦ decode_four c rest (ground arith) (ground arith)
    ]
  ]
]

pub decode-encode :
    (s : Text) (rest : Bytes)
    → All IsScalar s
    → decode ready (encode s ++ rest) ≡ s ++ decode ready rest
unfolding encode
decode-encode [] rest h = refl
decode-encode (c ∷ s) rest h =
    rw (append_assoc, decode-encode_char c (encode s ++ rest) h.0, decode-encode s rest h.1) refl

pub encode-append : (s t : Text) → encode (s ++ t) ≡ encode s ++ encode t
unfolding encode
encode-append [] t = refl
encode-append (c ∷ s) t = rw (encode-append s t, append_assoc) refl

pub from_utf8_lossy-encode : (s : Text) → All IsScalar s → from_utf8_lossy (encode s) ≡ s
unfolding from_utf8_lossy
from_utf8_lossy-encode s h =
    rw (← append-nil (encode s), decode-encode s [] h) (unfold decode in append-nil s)

pub from_utf8-encode : (s : Text) → All IsScalar s → from_utf8 (encode s) ≡ some s
unfolding from_utf8
from_utf8-encode s h = rw (from_utf8_lossy-encode s h, equal_refl (encode s)) refl

-- ASCII is stored as it is.
pub encode_ascii : (s : Text) → All (λ c. c < 0x80) s → encode s ≡ s
unfolding encode
encode_ascii [] h = refl
encode_ascii (c ∷ s) h = rw (encode_ascii s h.1) (ground arith)
