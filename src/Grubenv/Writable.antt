-- ===== src/Grubenv/Writable.antt =====
-- Which blocks of bootguard/src/grubenv.rs can be written, under `set` and `unset`.
use agenticlinux.Prelude.{
  ◌≡◌, inl, inr, not, ◌||◌, List, [], ◌∷◌, Bool-cases, All, ok, ok_injective, err-ne-ok, subst,
}
use agenticlinux.Text.{Text, equal, has_char}
use agenticlinux.Utf8.RoundTrip.{IsScalar}
use agenticlinux.Grubenv.{Env, set_in, set, unset_in, unset}
use agenticlinux.Grubenv.RoundTrip.{IsWritableVar, IsWritable}

set_in-IsWritable :
    (k v : Text) (vars : List (Text × Text))
    → IsWritableVar (k, v)
    → All IsScalar v
    → All IsWritableVar vars
    → All IsWritableVar (set_in k v vars)
unfolding set_in
set_in-IsWritable k v [] w s h = (w, tt)
set_in-IsWritable k v ((n, u) ∷ vars) w s (x, h) = elim (Bool-cases (equal n k)) [
  | inl same ↦ rw same (renewed, h)
  | inr other ↦ rw other (x, set_in-IsWritable k v vars w s h)
]
  where
    renewed : IsWritableVar (n, v)
    renewed = record {
      name_scalar = x.name_scalar;
      value_scalar = s;
      no_equals = x.no_equals;
      no_newline = x.no_newline;
      no_backslash = x.no_backslash;
      no_comment = x.no_comment;
    }

pub set-IsWritable :
    (env env' : Env) (k v : Text)
    → IsWritableVar (k, v)
    → IsWritable env
    → set env k v ≡ ok env'
    → IsWritable env'
unfolding set
set-IsWritable env env' k v w h e = elim (Bool-cases (not (has_char b'\n' v || has_char b'\\' v))) [
  | inl plain ↦
      subst IsWritable (ok_injective (rw plain at e))
        (set_in-IsWritable k v env.vars w w.value_scalar h)
  | inr special ↦ absurd (err-ne-ok (rw special at e))
]

unset_in-IsWritable :
    (k : Text) (vars : List (Text × Text))
    → All IsWritableVar vars
    → All IsWritableVar (unset_in k vars)
unfolding unset_in
unset_in-IsWritable k [] h = tt
unset_in-IsWritable k ((n, u) ∷ vars) (x, h) = elim (Bool-cases (equal n k)) [
  | inl same ↦ rw same (unset_in-IsWritable k vars h)
  | inr other ↦ rw other (x, unset_in-IsWritable k vars h)
]

pub unset-IsWritable : (env : Env) (k : Text) → IsWritable env → IsWritable (unset env k)
unfolding unset
unset-IsWritable env k h = unset_in-IsWritable k env.vars h
