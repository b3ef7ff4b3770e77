-- ===== src/Preflight/Kargs.antt =====
-- `KargsFile` and `parse_kargs_toml` of bootguard/src/preflight.rs. The library toml is a parameter: it
-- fills the structure, or fails with a message.
use agenticlinux.Prelude.{◌||◌, List, [], Result, ok, err, if◌then◌else◌}
use agenticlinux.Text.{Text, contains, is_empty}

pub record KargsFile : Type 0 where
  pub kargs : List Text
  pub match_architectures : List Text

unfoldable pub applied : Text → Result KargsFile → Result (List Text)
unfolding contains
applied arch (err e) = err e
applied arch (ok f) =
    ok (
      if is_empty f.match_architectures || contains f.match_architectures arch then f.kargs else [])

-- The kernel arguments of a file of kargs.d that apply to `arch`.
unfoldable pub parse_kargs_toml : (Text → Result KargsFile) → Text → Text → Result (List Text)
unfolding applied
parse_kargs_toml from_toml text arch = applied arch (from_toml text)
