-- ===== src/Text/Split.antt =====
-- `lines`, `split`, `split_whitespace`, `split_once` and `rsplit_once` of `str`.
use agenticlinux.Prelude.{
  ℕ, Bool, true, false, ◌&&◌, List, [], ◌∷◌, Option, none, some, ◌==◌, if◌then◌else◌,
}
use agenticlinux.Text.{Text, is_whitespace}

-- A character in front of the first piece.
abbrev pub cons_head : ℕ → List Text → List Text
cons_head c [] = (c ∷ []) ∷ []
cons_head c (l ∷ ls) = (c ∷ l) ∷ ls

abbrev pub at_newline : Text → Bool
at_newline [] = false
at_newline (c ∷ _) = c == b'\n'

-- `s.lines()`: pieces ended by `\n`, the last one optionally; a `\r` just before the `\n` goes too.
unfoldable pub lines : Text → List Text
lines [] = []
lines (c ∷ s) =
    let rest = lines s in
    if c == b'\n' then [] ∷ rest else if c == b'\r' && at_newline s then rest else cons_head c rest

-- `s.split(c)`
unfoldable pub split : ℕ → Text → List Text
split c [] = [] ∷ []
split c (x ∷ s) = let rest = split c s in if x == c then [] ∷ rest else cons_head x rest

abbrev at_word_end : Text → Bool
at_word_end [] = true
at_word_end (c ∷ _) = is_whitespace c

-- `s.split_whitespace()`
unfoldable pub split_whitespace : Text → List Text
unfolding is_whitespace
split_whitespace [] = []
split_whitespace (c ∷ s) =
    let rest = split_whitespace s in
    if is_whitespace c then rest else if at_word_end s then (c ∷ []) ∷ rest else cons_head c rest

abbrev pub cons_first : ℕ → Option (Text × Text) → Option (Text × Text)
cons_first x none = none
cons_first x (some (a, b)) = some (x ∷ a, b)

-- `s.split_once(c)`
unfoldable pub split_once : ℕ → Text → Option (Text × Text)
split_once c [] = none
split_once c (x ∷ s) =
    let rest = split_once c s in if x == c then some ([], s) else cons_first x rest

-- At the last occurrence: in the tail if it has one.
abbrev pub last_split : ℕ → ℕ → Text → Option (Text × Text) → Option (Text × Text)
last_split c x s (some (a, b)) = some (x ∷ a, b)
last_split c x s none = if x == c then some ([], s) else none

-- `s.rsplit_once(c)`
unfoldable pub rsplit_once : ℕ → Text → Option (Text × Text)
rsplit_once c [] = none
rsplit_once c (x ∷ s) = last_split c x s (rsplit_once c s)
