-- ===== src/Preflight/Kernel.antt =====
-- bootguard/src/preflight.rs: `check_kernel`, its helpers, and `detect_compression`.
use mathlib.Core.Option
use agenticlinux.Prelude.{
  ℕ, zero, suc, ◌+◌, ◌*◌, max, Bool, false, List, [], ◌∷◌, ◌++◌, Option, none, some, Result, ok,
  err, ltb, leb, ◌==◌, if◌then◌else◌, take, drop, length, get_elem?,
}
use agenticlinux.Prelude.Results.{◌>>=◌, ◌>>◌, ok_or, guard}
use agenticlinux.Text.{Text, codes, equal, starts_with}
use agenticlinux.Text.Decimal.{to_string}
use agenticlinux.Utf8.{Bytes}

-- `b.get(o..o + n)`
unfoldable pub get_range : Bytes → ℕ → ℕ → Option Bytes
get_range b o n = if leb (o + n) (length b) then some (take n (drop o b)) else none

-- `b.get(o..o + n) == Some(magic)`, n the length of the magic.
unfoldable pub has_magic : Bytes → ℕ → Bytes → Bool
has_magic b o magic = elim (get_range b o (length magic)) [ some r ↦ equal r magic | none ↦ false ]

-- `from_le_bytes`
unfoldable pub from_le : Bytes → ℕ
from_le [] = 0
from_le (x ∷ b) = x + 256 * from_le b

unfoldable pub u16le : Bytes → ℕ → Option ℕ
u16le b o = Option.map from_le (get_range b o 2)

unfoldable pub u32le : Bytes → ℕ → Option ℕ
u32le b o = Option.map from_le (get_range b o 4)

abbrev truncated : Text → ℕ → Text → ℕ → Text
truncated what need mid size =
    codes "truncated" ++ (what ++ (to_string need ++ (mid ++ to_string size)))

abbrev pub setup_sectors : ℕ → ℕ
setup_sectors zero = 4
setup_sectors (suc n) = suc n

unfoldable pub check_bzimage : Bytes → ℕ → Result (Unit {0})
check_bzimage head size = do
  s ← ok_or (get_elem? head 0x1f1) (codes "truncated bzImage header")
  sys ← ok_or (u32le head 0x1f4) (codes "truncated bzImage header")
  let need = (setup_sectors s + 1) * 512 + sys * 16
  guard (leb need size) (
      codes "truncated bzImage: needs "
      ++ (to_string need ++ (codes " bytes, file is " ++ to_string size)))

unfoldable pub check_arm64_image : ℕ → Result (Unit {0})
check_arm64_image size =
    guard (leb 64 size)
      (codes "truncated arm64 Image: file is " ++ (to_string size ++ codes " bytes"))

-- The loop over the sections from the `i`-th one on, `n` of them: the largest end.
unfoldable pub sections_end : ℕ → Bytes → ℕ → ℕ → ℕ → Result ℕ
sections_end zero head sec0 i end = ok end
sections_end (suc n) head sec0 i end = do
  raw ← ok_or (u32le head (sec0 + i * 40 + 16)) (codes "PE section table beyond header")
  ptr ← ok_or (u32le head (sec0 + i * 40 + 20)) (codes "PE section table beyond header")
  sections_end n head sec0 (i + 1) (max end (ptr + raw))

abbrev pub or_zero : Option ℕ → ℕ
or_zero none = 0
or_zero (some n) = n

-- The header of an EFI zboot image, if it is one.
unfoldable pub check_zboot : Bytes → ℕ → Result (Unit {0})
check_zboot head size =
    let need = or_zero (u32le head 8) + or_zero (u32le head 12) in
    if has_magic head 4 (codes "zimg")
    then guard (leb need size) (
        codes "truncated: zboot payload needs "
        ++ (to_string need ++ (codes " bytes, file is " ++ to_string size)))
    else ok tt

unfoldable pub is_bzimage : Bytes → Bool
is_bzimage head = has_magic head 0x202 (codes "HdrS")

abbrev pub eq_some : Option ℕ → ℕ → Bool
eq_some none n = false
eq_some (some m) n = m == n

-- A file with a DOS header.
unfoldable pub check_pe : Bytes → ℕ → Result (Unit {0})
check_pe head size = do
  pe ← ok_or (u32le head 0x3c) (codes "truncated DOS header")
  guard (has_magic head pe (b'P' ∷ b'E' ∷ 0 ∷ 0 ∷ []))
      (codes "MZ header without a valid PE signature")
  nsec ← ok_or (u16le head (pe + 6)) (codes "truncated COFF header")
  guard (ltb 0 nsec) (codes "PE image has no sections")
  guard (eq_some (u16le head (pe + 24)) 0x20b)
      (codes "PE image is not PE32+ (bad optional header magic)")
  opt ← ok_or (u16le head (pe + 20)) (codes "truncated COFF header")
  end ← sections_end nsec head (pe + 24 + opt) 0 0
  guard (leb end size) (
      codes "truncated: file is "
      ++ (to_string size ++ (codes " bytes but PE sections extend to " ++ to_string end)))
  check_zboot head size
  if is_bzimage head then check_bzimage head size else ok tt

-- A file without one.
unfoldable pub check_plain : Bytes → ℕ → Result (Unit {0})
check_plain head size =
    if is_bzimage head
    then check_bzimage head size
    else if has_magic head 56 (b'A' ∷ b'R' ∷ b'M' ∷ 0x64 ∷ [])
    then check_arm64_image size
    else err (codes "not a recognizable kernel image (bad magic)")

unfoldable pub check_kernel : Bytes → ℕ → Result (Unit {0})
check_kernel head size =
    if starts_with head (codes "MZ") then check_pe head size else check_plain head size

abbrev quiet_test : List Text
quiet_test = codes "-tq" ∷ []

-- The first magic number that the bytes start with: the program that tests it, and its arguments.
unfoldable pub detect_compression : Bytes → Option (Text × List Text)
detect_compression b =
    if starts_with b (0x28 ∷ 0xb5 ∷ 0x2f ∷ 0xfd ∷ [])
    then some (codes "zstd", quiet_test)
    else if starts_with b (0x1f ∷ 0x8b ∷ [])
    then some (codes "gzip", quiet_test)
    else if starts_with b (0xfd ∷ b'7' ∷ b'z' ∷ b'X' ∷ b'Z' ∷ 0 ∷ [])
    then some (codes "xz", quiet_test)
    else if starts_with b (0x04 ∷ 0x22 ∷ 0x4d ∷ 0x18 ∷ [])
    then some (codes "lz4", quiet_test)
    else if starts_with b (codes "BZh")
    then some (codes "bzip2", quiet_test)
    else none
