-- ===== src/Tests/Blocks.antt =====
-- The GRUB environment block, as in the tests of bootguard/src/grubenv.rs.
use agenticlinux.Prelude.{◌++◌, ◌∷◌, [], ◌≡◌, refl, arith, ok, replicate, some}
use agenticlinux.Prelude.Int.{pos}
use agenticlinux.Text.{Text, codes}
use agenticlinux.Utf8.{Bytes, encode}
use agenticlinux.Grubenv.{Env, header, parse, serialize, get, get_i32, set}
use agenticlinux.Grubenv.Lookup.{get-set}
use agenticlinux.Grubenv.RoundTrip.{IsWritable, parse-serialize}

abbrev old_block : Bytes
old_block = encode (header ++ codes "saved_entry=x\na=b\\\\c\n") ++ replicate 60 b'#'

abbrev old_env : Env
old_env = record { vars = (codes "saved_entry", codes "x") ∷ (codes "a", codes "b\\c") ∷ [] }

parse_old : parse old_block ≡ ok old_env
unfolding parse agenticlinux.Text.strip_prefix agenticlinux.Utf8.from_utf8_lossy encode
    agenticlinux.Text.starts_with agenticlinux.Text.Split.split_once
parse_old = refl

abbrev new_env : Env
new_env = record { vars = (codes "saved_entry", codes "y") ∷ (codes "a", codes "b\\c") ∷ [] }

set_old : set old_env (codes "saved_entry") (codes "y") ≡ ok new_env
unfolding set agenticlinux.Text.equal
set_old = refl

abbrev new_block : Bytes
new_block = encode (header ++ codes "saved_entry=y\na=b\\\\c\n") ++ replicate 60 b'#'

serialize_new : serialize new_env 106 ≡ ok new_block
unfolding serialize encode
serialize_new = refl

get_i32_trimmed :
    get_i32 (record { vars = (codes "n", codes " 7 ") ∷ [] }) (codes "n") ≡ some (pos 7)
unfolding get_i32 get agenticlinux.Text.equal agenticlinux.Text.Decimal.parse_i32
    agenticlinux.Text.trim agenticlinux.Text.Decimal.parse_unsigned
get_i32_trimmed = refl

new_env-IsWritable : IsWritable new_env
unfolding agenticlinux.Text.has_char agenticlinux.Text.starts_with
new_env-IsWritable = (
  record {
    name_scalar = omega arith;
    value_scalar = omega arith;
    no_equals = refl;
    no_newline = refl;
    no_backslash = refl;
    no_comment = refl;
  },
  (
    record {
      name_scalar = omega arith;
      value_scalar = omega arith;
      no_equals = refl;
      no_newline = refl;
      no_backslash = refl;
      no_comment = refl;
    },
    tt,
  ),
)

parse-serialize_example : parse new_block ≡ ok new_env
parse-serialize_example = parse-serialize new_env 106 new_block new_env-IsWritable serialize_new

get-set_example : get new_env (codes "a") ≡ some (codes "b\\c")
unfolding agenticlinux.Text.equal get
get-set_example = get-set old_env new_env (codes "saved_entry") (codes "y") (codes "a") set_old
