-- ===== src/Grubenv/RoundTrip.antt =====
-- `serialize` of bootguard/src/grubenv.rs against `parse`.
use agenticlinux.Prelude.{
  ℕ, ◌-◌, ◌≤◌, ◌<◌, ◌≡◌, refl, sym, ap, ◌∙◌, inl, inr, false, ◌||◌, List, [], ◌∷◌, ◌++◌, some,
  arith, zero, suc, ltb, ◌==◌, length, replicate, length-append, length-replicate, Bool-cases, All,
  All-append, ok,
}
use mathlib.Core.List.{append_assoc, append-nil}
use agenticlinux.Text.{Text, starts_with, strip_prefix, has_char}
use agenticlinux.Text.Laws.{strip_prefix-append}
use agenticlinux.Text.SplitLaws.{split_once_at}
use agenticlinux.Utf8.{Bytes, encode, from_utf8_lossy, len}
use agenticlinux.Utf8.RoundTrip.{IsScalar, encode-append, from_utf8_lossy-encode, encode_ascii}
use agenticlinux.Grubenv.{
  Env, header, scan, line_var, lines_vars, parse, escape, serialize_vars, contents, serialize,
}

-- A variable that can be written: no `=`, newline or backslash in its name, which begins no comment.
pub record IsWritableVar (kv : Text × Text) : Type 0 where
  pub name_scalar : All IsScalar kv.0
  pub value_scalar : All IsScalar kv.1
  pub no_equals : has_char b'=' kv.0 ≡ false
  pub no_newline : has_char b'\n' kv.0 ≡ false
  pub no_backslash : has_char b'\\' kv.0 ≡ false
  pub no_comment : starts_with kv.0 (b'#' ∷ []) ≡ false

abbrev pub IsWritable : Env → Type 0
IsWritable env = All IsWritableVar env.vars

scan_char :
    (c : ℕ) (cur s : Text)
    → (c == b'\n') ≡ false
    → (c == b'\\') ≡ false
    → scan false cur (c ∷ s) ≡ scan false (cur ++ c ∷ []) s
unfolding scan
scan_char c cur s h k = rw (k, h) refl

scan_escaped :
    (c : ℕ) (cur s : Text) → scan false cur (b'\\' ∷ c ∷ s) ≡ scan false (cur ++ c ∷ []) s
unfolding scan
scan_escaped c cur s = refl

scan_newline : (cur s : Text) → scan false cur (b'\n' ∷ s) ≡ cur ∷ scan false [] s
unfolding scan
scan_newline cur s = refl

-- Text with no newline or backslash is read onto the line as it stands.
scan_plain :
    (t cur s : Text)
    → has_char b'\n' t ≡ false
    → has_char b'\\' t ≡ false
    → scan false cur (t ++ s) ≡ scan false (cur ++ t) s
unfolding has_char
scan_plain [] cur s h k = rw append-nil
scan_plain (c ∷ t) cur s h k =
    scan_char c cur (t ++ s) (ground (arith, h)) (ground (arith, k))
    ∙ scan_plain t (cur ++ c ∷ []) s (ground (arith, h)) (ground (arith, k))
    ∙ rw append_assoc

-- An escaped value is read onto the line without its escapes.
scan-escape : (v cur s : Text) → scan false cur (escape v ++ s) ≡ scan false (cur ++ v) s
unfolding escape
scan-escape [] cur s = rw append-nil
scan-escape (c ∷ v) cur s = elim (Bool-cases (c == b'\\' || c == b'\n')) [
  | inl special ↦
      rw
        (special, scan_escaped c cur (escape v ++ s), scan-escape v (cur ++ c ∷ []) s, append_assoc)
        refl
  | inr plain ↦
      rw
        (
          plain,
          scan_char c cur (escape v ++ s) (ground (arith, plain)) (ground (arith, plain)),
          scan-escape v (cur ++ c ∷ []) s,
          append_assoc,
        )
        refl
]

-- One variable is one line.
scan_var :
    (k v s : Text)
    → has_char b'\n' k ≡ false
    → has_char b'\\' k ≡ false
    → scan false [] (k ++ (b'=' ∷ (escape v ++ (b'\n' ∷ s)))) ≡ (k ++ b'=' ∷ v) ∷ scan false [] s
scan_var k v s h b =
    scan_plain k [] _ h b
    ∙ scan_char b'=' k _ refl refl
    ∙ scan-escape v (k ++ b'=' ∷ []) _
    ∙ scan_newline (k ++ b'=' ∷ [] ++ v) s
    ∙ rw append_assoc

line_var_at :
    (k v : Text)
    → has_char b'=' k ≡ false
    → starts_with k (b'#' ∷ []) ≡ false
    → line_var (k ++ b'=' ∷ v) ≡ some (k, v)
unfolding starts_with
line_var_at [] v h c = split_once_at b'=' [] v h
line_var_at (x ∷ k) v h c = rw (c, split_once_at b'=' (x ∷ k) v h) refl

lines_vars_var :
    (k v : Text) (ls : List Text)
    → line_var (k ++ b'=' ∷ v) ≡ some (k, v)
    → lines_vars ((k ++ b'=' ∷ v) ∷ ls) ≡ (k, v) ∷ lines_vars ls
unfolding lines_vars
lines_vars_var k v ls h = rw h refl

-- The padding is one comment line.
scan_padding :
    (n : ℕ) (cur : Text) → scan false cur (replicate n b'#') ≡ (cur ++ replicate n b'#') ∷ []
scan_padding zero cur = rw append-nil (unfold scan in refl)
scan_padding (suc n) cur =
    scan_char b'#' cur _ refl refl ∙ scan_padding n (cur ++ b'#' ∷ []) ∙ rw append_assoc

lines_vars_padding : (n : ℕ) → lines_vars (scan false [] (replicate n b'#')) ≡ []
unfolding lines_vars starts_with
lines_vars_padding zero = rw scan_padding refl
lines_vars_padding (suc n) = rw scan_padding refl

regroup :
    (k e s p : Text)
    → (k ++ (b'=' ∷ (e ++ (b'\n' ∷ s)))) ++ p ≡ k ++ (b'=' ∷ (e ++ (b'\n' ∷ (s ++ p))))
regroup k e s p = simp append_assoc

scan-serialize_vars :
    (vars : List (Text × Text)) (n : ℕ)
    → All IsWritableVar vars
    → lines_vars (scan false [] (serialize_vars vars ++ replicate n b'#')) ≡ vars
unfolding serialize_vars
scan-serialize_vars [] n h = lines_vars_padding n
scan-serialize_vars ((k, v) ∷ vars) n (w, h) =
    rw
      (
        regroup k (escape v) (serialize_vars vars) (replicate n b'#'),
        scan_var k v (serialize_vars vars ++ replicate n b'#') w.no_newline w.no_backslash,
        lines_vars_var k v _ (line_var_at k v w.no_equals w.no_comment),
        scan-serialize_vars vars n h,
      )
      refl

escape-IsScalar : (v : Text) → All IsScalar v → All IsScalar (escape v)
unfolding escape
escape-IsScalar [] h = tt
escape-IsScalar (c ∷ v) h = elim (Bool-cases (c == b'\\' || c == b'\n')) [
  | inl e ↦ rw e (inl (omega arith), (h.0, escape-IsScalar v h.1))
  | inr e ↦ rw e (h.0, escape-IsScalar v h.1)
]

serialize_vars-IsScalar :
    (vars : List (Text × Text)) → All IsWritableVar vars → All IsScalar (serialize_vars vars)
unfolding serialize_vars
serialize_vars-IsScalar [] h = tt
serialize_vars-IsScalar ((k, v) ∷ vars) (w, h) = All-append IsScalar k _ w.name_scalar (
  inl (omega arith),
  All-append IsScalar (escape v) _ (escape-IsScalar v w.value_scalar)
      (inl (omega arith), serialize_vars-IsScalar vars h),
)

contents-IsScalar : (env : Env) → IsWritable env → All IsScalar (contents env)
unfolding contents
contents-IsScalar env h =
    All-append IsScalar header _ (omega arith) (serialize_vars-IsScalar env.vars h)

padding_ascii : (n : ℕ) → All (λ c. c < 0x80) (replicate n b'#')
padding_ascii zero = tt
padding_ascii (suc n) = (omega arith, padding_ascii n)

padding-IsScalar : (n : ℕ) → All IsScalar (replicate n b'#')
padding-IsScalar zero = tt
padding-IsScalar (suc n) = (inl (omega arith), padding-IsScalar n)

padded_text :
    (env : Env) (n : ℕ)
    → IsWritable env
    → from_utf8_lossy (encode (contents env) ++ replicate n b'#') ≡ contents env ++ replicate n b'#'
padded_text env n h =
    ap (λ t. from_utf8_lossy (encode (contents env) ++ t))
      (sym (encode_ascii (replicate n b'#') (padding_ascii n)))
    ∙ ap from_utf8_lossy (sym (encode-append (contents env) (replicate n b'#')))
    ∙ from_utf8_lossy-encode (contents env ++ replicate n b'#')
        (All-append IsScalar (contents env) _ (contents-IsScalar env h) (padding-IsScalar n))

stripped :
    (env : Env) (n : ℕ)
    → strip_prefix (contents env ++ replicate n b'#') header
      ≡ some (serialize_vars env.vars ++ replicate n b'#')
unfolding contents
stripped env n = rw append_assoc (strip_prefix-append header _)

-- `serialize` succeeds exactly when the text fits.
pub serialize_ok :
    (env : Env) (size : ℕ) (bytes : Bytes)
    → serialize env size ≡ ok bytes
    → (len (contents env) ≤ size)
      × (bytes ≡ encode (contents env) ++ replicate (size - len (contents env)) b'#')
unfolding serialize
serialize_ok env size bytes h = elim (Bool-cases (ltb size (len (contents env)))) [
  | inl big ↦ ground (arith, h, big)
  | inr fits ↦ (ground (arith, fits), ground (arith, h, fits))
]

-- What `serialize` writes has exactly the size asked for.
pub serialize_size :
    (env : Env) (size : ℕ) (bytes : Bytes) → serialize env size ≡ ok bytes → length bytes ≡ size
serialize_size env size bytes h =
    let (fits, e) = serialize_ok env size bytes h in
    rw e (
      omega (
        arith,
        length-append (encode (contents env)) (replicate (size - len (contents env)) b'#'),
        length-replicate {A = ℕ} (size - len (contents env)) b'#',
      ))

-- If every name is free of `=`, newlines and backslashes and begins no comment, then what
-- `serialize` wrote, whatever the values hold, `parse` reads back.
pub parse-serialize :
    (env : Env) (size : ℕ) (bytes : Bytes)
    → IsWritable env
    → serialize env size ≡ ok bytes
    → parse bytes ≡ ok env
unfolding parse
parse-serialize env size bytes h e =
    let n = size - len (contents env) in
    rw ((serialize_ok env size bytes e).1, padded_text env n h, stripped env n)
      (ap (λ (vars : List (Text × Text)). ok (record { vars = vars }))
        (scan-serialize_vars env.vars n h))
