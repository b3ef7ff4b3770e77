-- ===== src/Grubenv.antt =====
-- bootguard/src/grubenv.rs: the GRUB environment block. Reading and writing the file itself are in
-- Grubenv.File.
pub mod Lookup
pub mod RoundTrip
pub mod File
pub mod Writable
use agenticlinux.Prelude.{
  ℕ, ◌-◌, ◌+◌, Bool, true, false, not, ◌&&◌, ◌||◌, List, [], ◌∷◌, ◌++◌, Option, none, some, ltb,
  ◌==◌, if◌then◌else◌, length, replicate, Result, ok, err, ◌>>=◌, ◌>>◌, ok_or, guard,
}
use agenticlinux.Prelude.Int.{ℤ}
use agenticlinux.Text.{Text, codes, equal, starts_with, strip_prefix, has_char, trim, is_empty}
use agenticlinux.Text.Split.{split_once}
use agenticlinux.Text.Decimal.{to_string, parse_i32}
use agenticlinux.Utf8.{Bytes, encode, from_utf8_lossy, len}

abbrev pub header : Text
header = codes "# GRUB Environment Block\n"

pub record Env : Type 0 where
  pub vars : List (Text × Text)

-- The loop of `parse` over the characters: `cur` is the line so far, `esc` whether a backslash
-- stands in front.
unfoldable pub scan : Bool → Text → Text → List Text
scan esc cur [] = cur ∷ []
scan true cur (c ∷ s) = scan false (cur ++ c ∷ []) s
scan false cur (c ∷ s) =
    let escaped = scan true cur s in
    let next_line = cur ∷ scan false [] s in
    let same_line = scan false (cur ++ c ∷ []) s in
    if c == b'\\' then escaped else if c == b'\n' then next_line else same_line

-- A line that is a variable: not empty, no comment, and with an `=`.
abbrev pub line_var : Text → Option (Text × Text)
line_var l = if not (is_empty l) && not (starts_with l (b'#' ∷ [])) then split_once b'=' l else none

abbrev pub cons_var : Option (Text × Text) → List (Text × Text) → List (Text × Text)
cons_var none vars = vars
cons_var (some kv) vars = kv ∷ vars

unfoldable pub lines_vars : List Text → List (Text × Text)
lines_vars [] = []
lines_vars (l ∷ ls) = cons_var (line_var l) (lines_vars ls)

unfoldable pub parse : Bytes → Result Env
unfolding lines_vars scan
parse bytes = do
  body ←
      ok_or (strip_prefix (from_utf8_lossy bytes) header)
        (codes "missing GRUB environment block header")
  ok (record { vars = lines_vars (scan false [] body) })

-- A value with a backslash in front of each backslash and newline.
unfoldable pub escape : Text → Text
escape [] = []
escape (c ∷ v) =
    let rest = escape v in if c == b'\\' || c == b'\n' then b'\\' ∷ c ∷ rest else c ∷ rest

unfoldable pub serialize_vars : List (Text × Text) → Text
unfolding escape
serialize_vars [] = []
serialize_vars ((k, v) ∷ vars) = k ++ (b'=' ∷ (escape v ++ (b'\n' ∷ serialize_vars vars)))

-- The text of the block, before it is padded.
unfoldable pub contents : Env → Text
unfolding serialize_vars
contents env = header ++ serialize_vars env.vars

abbrev too_small : ℕ → ℕ → Text
too_small n size =
    codes "GRUB environment block too small ("
    ++ (to_string n ++ (codes " > " ++ (to_string size ++ codes " bytes)")))

unfoldable pub serialize : Env → ℕ → Result Bytes
unfolding contents
serialize env size =
    let s = contents env in
    if ltb size (len s)
    then err (too_small (len s) size)
    else ok (encode s ++ replicate (size - len s) b'#')

unfoldable pub get_in : Text → List (Text × Text) → Option Text
get_in k [] = none
get_in k ((n, v) ∷ vars) = if equal n k then some v else get_in k vars

unfoldable pub get : Env → Text → Option Text
unfolding get_in
get env k = get_in k env.vars

unfoldable pub get_i32 : Env → Text → Option ℤ
get_i32 env k = elim (get env k) [ some v ↦ parse_i32 (trim v) | none ↦ none ]

-- The first variable of that name is given the value; with none, one is pushed at the end.
unfoldable pub set_in : Text → Text → List (Text × Text) → List (Text × Text)
set_in k v [] = (k, v) ∷ []
set_in k v ((n, w) ∷ vars) = if equal n k then (n, v) ∷ vars else (n, w) ∷ set_in k v vars

unfoldable pub set : Env → Text → Text → Result Env
unfolding set_in has_char
set env k v = do
  guard (not (has_char b'\n' v || has_char b'\\' v))
      (codes "unsupported character in value for " ++ k)
  ok (record { vars = set_in k v env.vars })

unfoldable pub unset_in : Text → List (Text × Text) → List (Text × Text)
unset_in k [] = []
unset_in k ((n, v) ∷ vars) = let rest = unset_in k vars in if equal n k then rest else (n, v) ∷ rest

unfoldable pub unset : Env → Text → Env
unfolding unset_in
unset env k = record { vars = unset_in k env.vars }
