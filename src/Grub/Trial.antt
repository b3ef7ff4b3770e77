-- ===== src/Grub/Trial.antt =====
-- `arm` of bootguard/src/grub.rs, and what the next boot will read out of grubenv.
use agenticlinux.Prelude.{
  ℕ, ◌<◌, ◌^◌, ◌≡◌, refl, ◌∙◌, ap, sym, inl, true, false, [], ◌∷◌, some, arith, ok, length,
  some_injective, ok_injective, All,
}
use agenticlinux.Prelude.Results.{>>=-eq-ok}
use agenticlinux.Prelude.Int.{pos}
use agenticlinux.Text.{Text, codes, equal, trim, has_char, starts_with, is_ascii_digit}
use agenticlinux.Text.Laws.{all_iff}
use agenticlinux.Text.Decimal.{to_string, parse_i32}
use agenticlinux.Text.DecimalLaws.{all-to_string, parse_i32-to_string}
use agenticlinux.Text.TrimLaws.{trim_digits}
use agenticlinux.Utf8.{Bytes}
use agenticlinux.Utf8.RoundTrip.{IsScalar}
use agenticlinux.Sys.{is_safe_id}
use agenticlinux.Sys.SafeId.{safe-IsScalar}
use agenticlinux.Machine.Monad.{Machine, bind_ok}
use agenticlinux.Machine.Fs.{lookup}
use agenticlinux.Machine.Helpers.{Host}
use agenticlinux.Machine.Keeps.{LeavesAlone}
use agenticlinux.Grubenv.{Env, parse, get, get_i32, set}
use agenticlinux.Grubenv.Lookup.{get-set_self, get-set_other}
use agenticlinux.Grubenv.RoundTrip.{IsWritable, IsWritableVar, parse-serialize, serialize_size}
use agenticlinux.Grubenv.Writable.{set-IsWritable}
use agenticlinux.Grub.{grubenv, v_counter, v_target, v_fallback, armed, update_env, setup, arm}
use agenticlinux.Grub.Setup.{setup-Keeps}
use agenticlinux.Grub.Arm.{update_env-Edited}

-- The block tells of a trial of `digest` with `n` attempts left.
pub record TellsTrial (digest : Text) (n : ℕ) (env : Env) : Type 0 where
  pub counter : get_i32 env v_counter ≡ some (pos n)
  pub target : get env v_target ≡ some digest
  pub fallback : get env v_fallback ≡ some (codes "1")

get_i32_at :
    (env : Env) (k : Text) {v : Text} → get env k ≡ some v → get_i32 env k ≡ parse_i32 (trim v)
unfolding get_i32
get_i32_at env k e = rw (e, get_i32) refl

get_i32_digits :
    (env : Env) (k : Text) (n : ℕ)
    → n < 2 ^ 31
    → get env k ≡ some (to_string n)
    → get_i32 env k ≡ some (pos n)
get_i32_digits env k n h e =
    rw (get_i32_at env k e, trim_digits (to_string n) (all-to_string n), parse_i32-to_string n h)
      refl

names_differ :
    (equal v_target v_counter ≡ false)
    × (equal v_fallback v_counter ≡ false)
    × (equal v_fallback v_target ≡ false)
unfolding equal
names_differ = (refl, refl, refl)

armed-TellsTrial :
    (digest : Text) (n : ℕ) (env env' : Env)
    → n < 2 ^ 31
    → armed digest n env ≡ ok env'
    → TellsTrial digest n env'
unfolding armed
armed-TellsTrial digest n env env' h e =
    let (e1, s1, r1) = >>=-eq-ok (set env v_counter (to_string n)) _ e in
    let (e2, s2, s3) = >>=-eq-ok (set e1 v_target digest) _ r1 in
    let (tc, fc, ft) = names_differ in
    let one = codes "1" in
    record {
      counter = get_i32_digits env' v_counter n h (
          get-set_other e2 env' v_fallback one v_counter fc s3
          ∙ get-set_other e1 e2 v_target digest v_counter tc s2
          ∙ get-set_self env e1 v_counter (to_string n) s1);
      target =
          get-set_other e2 env' v_fallback one v_target ft s3
          ∙ get-set_self e1 e2 v_target digest s2;
      fallback = get-set_self e2 env' v_fallback one s3;
    }

names_plain :
    (v : Text)
    → All IsScalar v
    → IsWritableVar (v_counter, v) × IsWritableVar (v_target, v) × IsWritableVar (v_fallback, v)
unfolding has_char starts_with
names_plain v s = (
  record {
    name_scalar = omega arith;
    value_scalar = s;
    no_equals = refl;
    no_newline = refl;
    no_backslash = refl;
    no_comment = refl;
  },
  record {
    name_scalar = omega arith;
    value_scalar = s;
    no_equals = refl;
    no_newline = refl;
    no_backslash = refl;
    no_comment = refl;
  },
  record {
    name_scalar = omega arith;
    value_scalar = s;
    no_equals = refl;
    no_newline = refl;
    no_backslash = refl;
    no_comment = refl;
  },
)

digit_small : (c : ℕ) → is_ascii_digit c ≡ true → c < 0xd800
unfolding is_ascii_digit
digit_small c h = ground arith

digits-IsScalar : (s : Text) → All (λ c. is_ascii_digit c ≡ true) s → All IsScalar s
digits-IsScalar [] h = tt
digits-IsScalar (c ∷ s) h = (inl (digit_small c h.0), digits-IsScalar s h.1)

armed-IsWritable :
    (digest : Text) (n : ℕ) (env env' : Env)
    → All IsScalar digest
    → IsWritable env
    → armed digest n env ≡ ok env'
    → IsWritable env'
unfolding armed
armed-IsWritable digest n env env' d w e =
    let (e1, s1, r1) = >>=-eq-ok (set env v_counter (to_string n)) _ e in
    let (e2, s2, s3) = >>=-eq-ok (set e1 v_target digest) _ r1 in
    let digits =
      digits-IsScalar (to_string n) ((all_iff is_ascii_digit (to_string n)).0 (all-to_string n)) in
    let w1 = set-IsWritable env e1 v_counter (to_string n) (names_plain _ digits).0 w s1 in
    let w2 = set-IsWritable e1 e2 v_target digest (names_plain _ d).1 w1 s2 in
    set-IsWritable e2 env' v_fallback (codes "1") (names_plain (codes "1") (omega arith)).2 w2 s3

-- `arm` that succeeds writes a block that can be written again.
pub arm-Renewed :
    (h : Host)
    → LeavesAlone h (codes "mount") grubenv
    → (digest : Text) (n : ℕ) (w : Machine) (old : Bytes) (env : Env) → is_safe_id digest ≡ true
    → n < 2 ^ 31
    → lookup grubenv w.files ≡ some old
    → parse old ≡ ok env
    → IsWritable env
    → (arm h digest n w).0 ≡ ok tt
    → (new : Bytes) × (env' : Env) × (lookup grubenv (arm h digest n w).1.files ≡ some new)
      × (length new ≡ length old)
      × (parse new ≡ ok env')
      × IsWritable env'
      × TellsTrial digest n env'
unfolding arm
arm-Renewed h mount digest n w old env safe small was parsed writable e =
    let (_, _, e1, m) = bind_ok (setup h) (λ _. update_env h (armed digest n)) w e in
    let v = (setup h w).1 in
    let d = update_env-Edited h mount (armed digest n) v e1 in
    let same = some_injective (sym d.was ∙ (setup-Keeps h mount w ∙ was)) in
    let same_env = ok_injective (sym d.parsed ∙ (ap parse same ∙ parsed)) in
    let edited = ap (armed digest n) (sym same_env) ∙ d.edited in
    let wr = armed-IsWritable digest n env d.env' (safe-IsScalar digest safe) writable edited in
    (
      d.new,
      d.env',
      ap (λ (x : Machine). lookup grubenv x.files) m ∙ d.now,
      serialize_size d.env' (length d.old) d.new d.serialized ∙ ap length same,
      parse-serialize d.env' (length d.old) d.new wr d.serialized,
      wr,
      armed-TellsTrial digest n env d.env' small edited,
    )

-- If `arm` succeeds for a safe digest and grubenv was a block whose names could all be written, then
-- grubenv is a block again, of the same size, that tells of a trial of that digest with that many
-- attempts, if `mount` leaves its content alone.
pub arm-TellsTrial :
    (h : Host)
    → LeavesAlone h (codes "mount") grubenv
    → (digest : Text) (n : ℕ) (w : Machine) (old : Bytes) (env : Env) → is_safe_id digest ≡ true
    → n < 2 ^ 31
    → lookup grubenv w.files ≡ some old
    → parse old ≡ ok env
    → IsWritable env
    → (arm h digest n w).0 ≡ ok tt
    → (new : Bytes) × (env' : Env) × (lookup grubenv (arm h digest n w).1.files ≡ some new)
      × (length new ≡ length old)
      × (parse new ≡ ok env')
      × TellsTrial digest n env'
arm-TellsTrial h mount digest n w old env safe small was parsed writable e =
    let (new, env', now, size, block, _, tells) =
      arm-Renewed h mount digest n w old env safe small was parsed writable e in
    (new, env', now, size, block, tells)
