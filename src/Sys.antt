-- ===== src/Sys.antt =====
-- bootguard/src/sys.rs: what it decides on texts and on file modes, and its deadlines for child
-- processes. Its helpers for files and commands are in Machine.
pub mod SafeId
pub mod Executable
pub mod Deadline
pub mod DeadlineLaws
pub mod CaptureLaws
use agenticlinux.Prelude.{ℕ, ◌/◌, ◌%◌, ◌==◌, Bool, not, ◌&&◌, ◌||◌, List}
use agenticlinux.Text.{Text, codes, all, has_char, is_ascii_alphanumeric, is_empty}

-- `c.is_ascii_alphanumeric() || ":._-".contains(c)`
unfoldable pub is_safe_char : ℕ → Bool
unfolding is_ascii_alphanumeric has_char
is_safe_char c = is_ascii_alphanumeric c || has_char c (codes ":._-")

unfoldable pub is_safe_id : Text → Bool
unfolding is_safe_char all
is_safe_id s = not (is_empty s) && all is_safe_char s

-- `n & 0o170000` and `n & 0o111 != 0` by division: the kind of a file, and whether it is executable.
abbrev pub file_kind : ℕ → ℕ
file_kind mode = mode / 4096 % 16

abbrev pub has_exec : ℕ → Bool
has_exec mode = mode % 2 == 1 || mode / 8 % 2 == 1 || mode / 64 % 2 == 1
