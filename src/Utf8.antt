-- ===== src/Utf8.antt =====
-- UTF-8, as Rust's `String` stores it: `String::from_utf8_lossy`, `fs::read_to_string`, `as_bytes`
-- and `len`.
pub mod RoundTrip
pub mod Scalars
use agenticlinux.Prelude.{
  ℕ, zero, suc, ◌+◌, ◌-◌, ◌*◌, ◌/◌, ◌%◌, Bool, ◌&&◌, List, [], ◌∷◌, ◌++◌, Option, none, some, ltb,
  leb, ◌==◌, if◌then◌else◌, length,
}
use agenticlinux.Text.{Text, equal}

abbrev pub Bytes : Type 0
Bytes = List ℕ

unfoldable pub encode_char : ℕ → Bytes
encode_char c =
    if ltb c 0x80
    then c ∷ []
    else if ltb c 0x800
    then (0xc0 + c / 64) ∷ (0x80 + c % 64) ∷ []
    else if ltb c 0x10000
    then (0xe0 + c / 4096) ∷ (0x80 + c / 64 % 64) ∷ (0x80 + c % 64) ∷ []
    else (0xf0 + c / 262144) ∷ (0x80 + c / 4096 % 64) ∷ (0x80 + c / 64 % 64) ∷ (0x80 + c % 64) ∷ []

-- `s.as_bytes()`
unfoldable pub encode : Text → Bytes
unfolding encode_char
encode [] = []
encode (c ∷ s) = encode_char c ++ encode s

-- `s.len()`
abbrev pub len : Text → ℕ
len s = length (encode s)

-- Between two bytes: nothing pending, or a character's bits so far with how many bytes are to
-- come, and the range for the next one.
pub data Pending : Type 0 where
  ready : Pending
  more : ℕ → ℕ → ℕ → ℕ → Pending

abbrev pub within : ℕ → ℕ → ℕ → Bool
within lo hi c = leb lo c && leb c hi

abbrev pub replacement : ℕ
replacement = 0xfffd

-- A byte that begins a character.
unfoldable pub lead : ℕ → Text × Pending
lead b =
    if ltb b 0x80
    then (b ∷ [], ready)
    else if within 0xc2 0xdf b
    then ([], more (b - 0xc0) 1 0x80 0xbf)
    else if within 0xe0 0xef b
    then (
      [],
      more (b - 0xe0) 2 (if b == 0xe0 then 0xa0 else 0x80) (if b == 0xed then 0x9f else 0xbf),
    )
    else if within 0xf0 0xf4 b
    then (
      [],
      more (b - 0xf0) 3 (if b == 0xf0 then 0x90 else 0x80) (if b == 0xf4 then 0x8f else 0xbf),
    )
    else (replacement ∷ [], ready)

-- What is to come after one more byte of a character.
abbrev pub continue : ℕ → ℕ → Text × Pending
continue bits zero = (bits ∷ [], ready)
continue bits (suc zero) = (bits ∷ [], ready)
continue bits (suc (suc n)) = ([], more bits (suc n) 0x80 0xbf)

unfoldable pub step : Pending → ℕ → Text × Pending
unfolding lead
step ready b = lead b
step (more bits need lo hi) b =
    if within lo hi b
    then continue (bits * 64 + (b - 0x80)) need
    else (replacement ∷ (lead b).0, (lead b).1)

-- An ill-formed stretch becomes one U+FFFD.
unfoldable pub decode : Pending → Bytes → Text
unfolding step
decode ready [] = []
decode (more _ _ _ _) [] = replacement ∷ []
decode p (b ∷ bs) = let (out, q) = step p b in out ++ decode q bs

-- `String::from_utf8_lossy`
unfoldable pub from_utf8_lossy : Bytes → Text
unfolding decode
from_utf8_lossy bs = decode ready bs

-- `String::from_utf8`: it fails where the lossy decoding has to replace something.
unfoldable pub from_utf8 : Bytes → Option Text
unfolding from_utf8_lossy encode equal
from_utf8 bs = let s = from_utf8_lossy bs in if equal (encode s) bs then some s else none
