-- ===== src/Sys/Executable.antt =====
-- `is_executable` of bootguard/src/sys.rs.
use agenticlinux.Prelude.{ℕ, ◌==◌, Bool, false, ◌&&◌, Option, none, some}
use agenticlinux.Text.{Text}
use agenticlinux.Machine.Monad.{Machine}
use agenticlinux.Machine.Helpers.{Host}
use agenticlinux.Sys.{file_kind, has_exec}

-- A regular file with a bit to execute it; nothing where the mode cannot be read.
unfoldable pub runs_with : Option ℕ → Bool
runs_with none = false
runs_with (some mode) = file_kind mode == 8 && has_exec mode

unfoldable pub is_executable : Host → Text → Machine → Bool
unfolding runs_with
is_executable h path w = runs_with (h.mode path w)
