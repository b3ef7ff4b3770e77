-- ===== src/Grubenv/File.antt =====
-- `read_file` and `write_in_place` of bootguard/src/grubenv.rs.
use agenticlinux.Prelude.{ℕ, ◌∷◌, ◌++◌, length, ◌≡◌, refl, Result, ok, err}
use agenticlinux.Text.{Text, codes}
use agenticlinux.Utf8.{Bytes}
use agenticlinux.Machine.Monad.{Io, ◌>>=◌, lift, pure}
use agenticlinux.Machine.Fs.{IoResult, done, not_found, failed, no_such_file, read, write_all_at}
use agenticlinux.Machine.Helpers.{map_err}
use agenticlinux.Grubenv.{Env, parse, serialize}

-- The block and the size of its file.
unfoldable pub read_file : Text → Io (Env × ℕ)
read_file path = do
  bytes ← map_err (read path) (λ e. codes "read " ++ (path ++ (codes ": " ++ e)))
  env ← lift (parse bytes)
  pure (env, length bytes)

abbrev about : Text → Text → Text → Text
about step path e = step ++ (b' ' ∷ (path ++ (codes ": " ++ e)))

-- A missing file fails to open; a fault of the write and of the `fsync` behind it are told alike here.
abbrev pub in_place_result : Text → IoResult (Unit {0}) → Result (Unit {0})
in_place_result path (done _) = ok tt
in_place_result path not_found = err (about (codes "open") path no_such_file)
in_place_result path (failed e) = err (about (codes "write") path e)

abbrev overwrite_at : Text → Bytes → Io (Unit {0})
overwrite_at path bytes w = let (r, w') = write_all_at path bytes w in (in_place_result path r, w')

unfoldable pub write_in_place : Text → Env → ℕ → Io (Unit {0})
write_in_place path env size = do bytes ← lift (serialize env size); overwrite_at path bytes

pub in_place_result_ok :
    (path : Text) (r : IoResult (Unit {0})) → in_place_result path r ≡ ok tt → r ≡ done tt
in_place_result_ok path (done _) h = refl
in_place_result_ok path not_found h = cc
in_place_result_ok path (failed e) h = cc
