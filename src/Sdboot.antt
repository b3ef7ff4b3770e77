-- ===== src/Sdboot.antt =====
-- bootguard/src/sdboot.rs: the names of counted boot entries, and the texts that the systemd-boot
-- backend reads. What it does with files is in Sdboot.Files.
pub mod Counter
pub mod Files
pub mod Bounds
pub mod Found
pub mod Bad
pub mod Record
pub mod SaveLoad
pub mod Blessed
pub mod Unstaged
pub mod Armed
use mathlib.Core.Option
use agenticlinux.Prelude.{
  ℕ, zero, suc, ◌+◌, ◌-◌, ◌*◌, ◌/◌, ◌%◌, Bool, true, false, not, ◌&&◌, ◌||◌, List, [], ◌∷◌, ◌++◌,
  Option, none, some, ltb, ◌==◌, if◌then◌else◌, drop,
}
use agenticlinux.Text.{
  Text, codes, strip_prefix, strip_suffix, any, trim_start_matches, find_map, equal, is_whitespace,
}
use agenticlinux.Text.Split.{lines, split_once, rsplit_once, split_whitespace, split}
use agenticlinux.Text.Decimal.{to_string, parse_u32}
use agenticlinux.Utf8.{Bytes}

abbrev pub conf : Text
conf = codes ".conf"

abbrev pub both {ℓ κ} : {A : Type ℓ} {B : Type κ} → Option A → Option B → Option (A × B)
both (some a) (some b) = some (a, b)
both _ none = none
both none (some b) = none

-- `left`, or `left-done`; with no dash nothing is done yet.
abbrev pub counts : Text → Option (Text × Text) → Option (ℕ × ℕ)
counts c (some (left, done)) = both (parse_u32 left) (parse_u32 done)
counts c none = both (parse_u32 c) (parse_u32 (codes "0"))

abbrev pub counter_of : Option (Text × Text) → Option (ℕ × ℕ)
counter_of none = none
counter_of (some (_, c)) = counts c (split_once b'-' c)

unfoldable pub parse_counter : Text → Option (ℕ × ℕ)
parse_counter file = elim (strip_suffix file conf) [
  | some stem ↦ counter_of (rsplit_once b'+' stem)
  | none ↦ none
]

abbrev pub before_plus : Text → Option (Text × Text) → Text
before_plus stem (some (a, _)) = a
before_plus stem none = stem

abbrev pub base_of : Text → Option Text → Option (ℕ × ℕ) → Text
base_of file (some stem) (some _) = before_plus stem (rsplit_once b'+' stem) ++ conf
base_of file none (some _) = file
base_of file _ none = file

unfoldable pub base_name : Text → Text
base_name file = base_of file (strip_suffix file conf) (parse_counter file)

abbrev pub or_self : Text → Option Text → Text
or_self s none = s
or_self s (some t) = t

abbrev pub counted : Text → ℕ → Option ℕ → Text
counted stem left (some done) =
    stem ++ (b'+' ∷ (to_string left ++ (b'-' ∷ (to_string done ++ conf))))
counted stem left none = stem ++ (b'+' ∷ (to_string left ++ conf))

unfoldable pub with_tries : Text → ℕ → Option ℕ → Text
with_tries file left done =
    let base = base_name file in counted (or_self base (strip_suffix base conf)) left done

-- The little-endian 16-bit units of the bytes; an odd last byte is left out.
unfoldable pub units : Bytes → List ℕ
units [] = []
units (a ∷ []) = []
units (a ∷ b ∷ rest) = (a + b * 256) ∷ units rest

-- `take_while(|&u| u != 0)`
unfoldable pub until_zero : List ℕ → List ℕ
until_zero [] = []
until_zero (u ∷ us) = let rest = until_zero us in if u == 0 then [] else u ∷ rest

abbrev within : ℕ → ℕ → ℕ → Bool
within lo hi u = not (ltb u lo) && not (ltb hi u)

abbrev cons_char : ℕ → Option Text → Option Text
cons_char c none = none
cons_char c (some s) = some (c ∷ s)

-- `String::from_utf16`: an unpaired surrogate is an error. The second argument is the high surrogate
-- read just before.
unfoldable pub from_utf16_after : Option ℕ → List ℕ → Option Text
from_utf16_after none [] = some []
from_utf16_after (some h) [] = none
from_utf16_after none (u ∷ us) =
    let paired = from_utf16_after (some u) us in
    let plain = cons_char u (from_utf16_after none us) in
    if within 0xd800 0xdbff u then paired else if within 0xdc00 0xdfff u then none else plain
from_utf16_after (some h) (u ∷ us) =
    let rest =
      cons_char (0x10000 + ((h - 0xd800) * 1024 + (u - 0xdc00))) (from_utf16_after none us) in
    if within 0xdc00 0xdfff u then rest else none

-- The bytes behind the four attribute bytes; `none` where there are not even those.
unfoldable pub payload : Bytes → Option Bytes
payload (a ∷ b ∷ c ∷ d ∷ rest) = some rest
payload _ = none

unfoldable pub efivar_string : Bytes → Option Text
unfolding payload from_utf16_after until_zero units
efivar_string raw = elim (payload raw) [
  | some bytes ↦ from_utf16_after none (until_zero (units bytes))
  | none ↦ none
]

-- The composefs id that an entry boots.
unfoldable pub entry_verity : Text → Option Text
unfolding find_map
entry_verity text = elim (find_map (λ l. strip_prefix l (codes "options")) (lines text)) [
  | some opts ↦
      Option.map (trim_start_matches (λ c. c == b'?'))
        (find_map (λ t. strip_prefix t (codes "composefs=")) (split_whitespace opts))
  | none ↦ none
]

-- The value of `key=` on the first line that has it.
abbrev pub get : Text → Text → Option Text
get text k =
    find_map
      (λ l. elim (strip_prefix l k) [ some rest ↦ strip_prefix rest (b'=' ∷ []) | none ↦ none ])
      (lines text)

-- `(image digest, composefs id)`
unfoldable pub parse_trial : Text → Option (Text × Text)
unfolding find_map
parse_trial text = both (get text (codes "target")) (get text (codes "verity"))

-- What `save_trial` writes.
unfoldable pub trial_text : Text → Text → Text
trial_text target verity =
    codes "target=" ++ (target ++ (b'\n' ∷ (codes "verity=" ++ (verity ++ (b'\n' ∷ [])))))

abbrev is_separator : ℕ → Bool
is_separator c = c == b'\\' || c == b'/'

-- The piece behind the last separator: `path.rsplit(['\\', '/']).next()`.
unfoldable pub file_of_path : Text → Text
unfolding any
file_of_path [] = []
file_of_path (c ∷ s) =
    let inner = file_of_path s in
    if any is_separator s then inner else if is_separator c then s else c ∷ s

-- `u64::from_le_bytes` of the eight bytes at 4, if there are as many.
unfoldable pub features : Bytes → Option ℕ
features (_ ∷ _ ∷ _ ∷ _ ∷ b0 ∷ b1 ∷ b2 ∷ b3 ∷ b4 ∷ b5 ∷ b6 ∷ b7 ∷ _) =
    some
      (b0 + 256 * (b1 + 256 * (b2 + 256 * (b3 + 256 * (b4 + 256 * (b5 + 256 * (b6 + 256 * b7)))))))
features _ = none

-- `features & FEATURE_BOOT_COUNTING != 0`
unfoldable pub counts_boots : ℕ → Bool
counts_boots n = n / 16 % 2 == 1
