-- ===== src/Preflight/Cpio.antt =====
-- bootguard/src/preflight.rs: the walk over the uncompressed cpio archives at the start of an
-- initramfs (`is_init`, `cpio_has_checksum`, `byte_sum`, `initramfs_payload_offset`).
use agenticlinux.Prelude.{
  ℕ, zero, suc, ◌+◌, ◌-◌, ◌*◌, ◌/◌, ◌%◌, ◌^◌, min, Bool, true, false, not, ◌&&◌, ◌||◌, List, [],
  ◌∷◌, ◌++◌, Option, none, some, Result, ok, err, ltb, leb, ◌==◌, if◌then◌else◌, take, drop, length,
  reverse,
}
use agenticlinux.Prelude.Results.{◌>>=◌, ◌>>◌, ok_or, guard}
use agenticlinux.Text.{Text, codes, equal, contains, strip_prefix, trim_start_matches}
use agenticlinux.Text.Decimal.{to_string}
use agenticlinux.Utf8.{Bytes, from_utf8, from_utf8_lossy}
use agenticlinux.Sys.{file_kind, has_exec}

-- An open file: its content, and the error that a read of `n` bytes at an offset meets, if any.
pub record File : Type 0 where
  pub content : Bytes
  pub fault : ℕ → ℕ → Option Text

abbrev slice : Bytes → ℕ → ℕ → Result Bytes
slice b off n =
    if leb (off + n) (length b)
    then ok (take n (drop off b))
    else err (codes "failed to fill whole buffer")

unfoldable pub read_exact_at : File → ℕ → ℕ → Result Bytes
read_exact_at f off n = elim (f.fault off n) [ some e ↦ err e | none ↦ slice f.content off n ]

abbrev prefixed : Text → Text → Text
prefixed what e = what ++ (codes ": " ++ e)

abbrev pub context {ℓ} : {A : Type ℓ} → Text → Result A → Result A
context what (ok a) = ok a
context what (err e) = err (prefixed what e)

abbrev init_names : List Text
init_names =
    codes "init"
    ∷ codes "sbin/init"
    ∷ codes "usr/sbin/init"
    ∷ codes "usr/lib/systemd/systemd"
    ∷ codes "lib/systemd/systemd"
    ∷ []

-- `trim_start_matches("./")`, on fuel: each round takes two characters.
unfoldable pub trim_dot_slash : ℕ → Text → Text
trim_dot_slash zero s = s
trim_dot_slash (suc n) s = elim (strip_prefix s (codes "./")) [
  | some r ↦ trim_dot_slash n r
  | none ↦ s
]

unfoldable pub is_init : Text → ℕ → Bool
is_init name mode =
    let n = trim_start_matches (λ c. c == b'/') (trim_dot_slash (length name) name) in
    contains init_names n && (file_kind mode == 10 || (file_kind mode == 8 && has_exec mode))

unfoldable pub cpio_has_checksum : Bytes → Option Bool
cpio_has_checksum magic =
    if equal magic (codes "070701")
    then some false
    else if equal magic (codes "070702")
    then some true
    else none

-- `fold(sum, |s, &b| s.wrapping_add(b as u32))`
unfoldable pub wrapping_sum : ℕ → Bytes → ℕ
wrapping_sum s [] = s
wrapping_sum s (b ∷ bs) = wrapping_sum ((s + b) % 2 ^ 32) bs

abbrev pub chunk : ℕ
chunk = 65536

-- The loop of `byte_sum`: each round reads a chunk, so the fuel `n` is enough.
unfoldable pub sum_from : ℕ → File → ℕ → ℕ → ℕ → Result ℕ
sum_from fuel f off zero sum = ok sum
sum_from zero f off (suc n) sum = ok sum
sum_from (suc fuel) f off (suc n) sum = do
  let k = min (suc n) chunk
  buf ← read_exact_at f off k
  sum_from fuel f (off + k) (suc n - k) (wrapping_sum sum buf)

unfoldable pub byte_sum : File → ℕ → ℕ → Result ℕ
byte_sum f off n = sum_from n f off n 0

abbrev hex_digit : ℕ → Option ℕ
hex_digit c =
    if leb b'0' c && leb c b'9'
    then some (c - b'0')
    else if leb b'a' c && leb c b'f'
    then some (c - b'a' + 10)
    else if leb b'A' c && leb c b'F'
    then some (c - b'A' + 10)
    else none

unfoldable pub hex_digits : ℕ → Text → Option ℕ
hex_digits acc [] = some acc
hex_digits acc (c ∷ s) = elim (hex_digit c) [ some d ↦ hex_digits (acc * 16 + d) s | none ↦ none ]

-- `u64::from_str_radix(s, 16)` of eight characters: a plus sign may stand first.
unfoldable pub from_hex : Text → Option ℕ
from_hex (c ∷ d ∷ s) = if c == b'+' then hex_digits 0 (d ∷ s) else hex_digits 0 (c ∷ d ∷ s)
from_hex s = hex_digits 0 s

unfoldable pub hex_at : Bytes → ℕ → Option ℕ
hex_at h a = elim (from_utf8 (take 8 (drop a h))) [ some s ↦ from_hex s | none ↦ none ]

pub record Fields : Type 0 where
  pub mode : ℕ
  pub fsz : ℕ
  pub nsz : ℕ
  pub sum : ℕ

abbrev fields_of : Option ℕ → Option ℕ → Option ℕ → Option ℕ → Option Fields
fields_of (some m) (some f) (some n) (some s) =
    some (record { mode = m; fsz = f; nsz = n; sum = s })
fields_of _ _ _ _ = none

unfoldable pub header_fields : Bytes → Option Fields
header_fields h = fields_of (hex_at h 14) (hex_at h 54) (hex_at h 94) (hex_at h 102)

-- `(x + 3) & !3`
unfoldable pub a4 : ℕ → ℕ
a4 x = (x + 3) / 4 * 4

abbrev pub ends_in_nul : Bytes → Bool
ends_in_nul b = elim (reverse b) [ [] ↦ false | c ∷ _ ↦ c == 0 ]

unfoldable pub verified : Bool → File → ℕ → ℕ → ℕ → Text → Result (Unit {0})
verified false f data_at fsz sum name = ok tt
verified true f data_at fsz sum name = do
  s ← context (codes "early cpio data") (byte_sum f data_at fsz)
  guard (s == sum) (codes "checksum mismatch in cpio entry " ++ name)

-- What an entry is: the trailer, or one that may be an init; with the offset behind it.
pub data Step : Type 0 where
  trailer : ℕ → Step
  entry : ℕ → Bool → Step

unfoldable pub next_step : Text → ℕ → ℕ → ℕ → Result Step
next_step name mode o len =
    if equal name (codes "TRAILER!!!")
    then ok (trailer o)
    else (guard (not (o == len)) (codes "early cpio ends without a trailer")
        >> ok (entry o (is_init name mode)))

-- One round of the inner loop.
unfoldable pub read_entry : File → ℕ → ℕ → Result Step
read_entry f len o = do
  h ← context (codes "early cpio header") (read_exact_at f o 110)
  crc ← ok_or (cpio_has_checksum (take 6 h)) (codes "bad cpio magic")
  e ← ok_or (header_fields h) (codes "bad cpio header")
  guard (not (e.nsz == 0 || ltb 4096 e.nsz || ltb len (o + 110 + e.nsz)))
      (codes "implausible cpio name size " ++ to_string e.nsz)
  raw ← context (codes "early cpio name") (read_exact_at f (o + 110) e.nsz)
  guard (ends_in_nul raw) (codes "cpio entry name is not NUL terminated")
  let name = from_utf8_lossy (take (e.nsz - 1) raw)
  let data_at = a4 (o + 110 + e.nsz)
  let o' = a4 (data_at + e.fsz)
  guard (leb o' len) (codes "early cpio runs past end of file")
  verified crc f data_at e.fsz e.sum name
  next_step name e.mode o' len

-- A result, or out of fuel.
abbrev pub Walk : Type 0
Walk = Option (Result (ℕ × Bool))

-- The rest of the inner loop, by what the round has read.
unfoldable pub after_entry : (ℕ → Bool → Walk) → Bool → Result Step → Walk
after_entry more has_init (err e) = some (err e)
after_entry more has_init (ok (trailer o)) = some (ok (o, has_init))
after_entry more has_init (ok (entry o init)) = more o (has_init || init)

-- The inner loop: the entries of one archive, up to the trailer.
unfoldable pub entries : ℕ → File → ℕ → ℕ → Bool → Walk
entries zero f len o has_init = none
entries (suc fuel) f len o has_init = after_entry (entries fuel f len) has_init (read_entry f len o)

abbrev is_zero : Result Bytes → Bool
is_zero (ok (zero ∷ _)) = true
is_zero _ = false

abbrev skip_if : (ℕ → ℕ) → ℕ → Bool → ℕ
skip_if next o true = next (suc o)
skip_if next o false = o

-- The `while` over padding, at most `n` bytes of it.
unfoldable pub skip_zeros : ℕ → File → ℕ → ℕ
skip_zeros zero f o = o
skip_zeros (suc n) f o = skip_if (skip_zeros n f) o (is_zero (read_exact_at f o 1))

abbrev pub starts_archive : Result Bytes → Bool
starts_archive (ok magic) = elim (cpio_has_checksum magic) [ some _ ↦ true | none ↦ false ]
starts_archive (err _) = false

-- Behind the padding in front of the next archive.
unfoldable pub padded : File → ℕ → ℕ → ℕ
padded f len o = skip_zeros (min (o + 2 ^ 20) len - o) f o

unfoldable pub after_archive : (ℕ → Bool → Walk) → Walk → Walk
after_archive more none = none
after_archive more (some (err e)) = some (err e)
after_archive more (some (ok (o, has_init))) = more o has_init

unfoldable pub archive_at : (ℕ → Bool → Walk) → File → ℕ → Bool → ℕ → Bool → Walk
archive_at more f len has_init p false = some (ok (p, has_init))
archive_at more f len has_init p true = after_archive more (entries (suc len) f len p has_init)

-- The outer loop.
unfoldable pub archives : ℕ → File → ℕ → ℕ → Bool → Walk
archives zero f len o has_init = none
archives (suc fuel) f len o has_init =
    let p = padded f len o in
    archive_at (archives fuel f len) f len has_init p (starts_archive (read_exact_at f p 6))

-- Each round takes at least the 110 bytes of a header, so more rounds than bytes are enough.
unfoldable pub initramfs_payload_offset : File → ℕ → Walk
initramfs_payload_offset f len = archives (suc len) f len 0 false
