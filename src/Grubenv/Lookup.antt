-- ===== src/Grubenv/Lookup.antt =====
-- `set` and `unset` of bootguard/src/grubenv.rs against `get`.
use agenticlinux.Prelude.{◌≡◌, refl, false, List, [], ◌∷◌, none, some, arith, if◌then◌else◌, ok}
use agenticlinux.Text.{Text, equal}
use agenticlinux.Text.Laws.{equal_iff, equal_refl}
use agenticlinux.Grubenv.{Env, get_in, get, set_in, set, unset_in, unset}

get_in-set_in :
    (j k v : Text) (vars : List (Text × Text))
    → get_in j (set_in k v vars) ≡ (if equal k j then some v else get_in j vars)
unfolding get_in set_in
get_in-set_in j k v [] = refl
get_in-set_in j k v ((n, w) ∷ vars) =
    ground (arith, equal_iff n k, equal_iff n j, equal_iff k j, get_in-set_in j k v vars)

get_in-unset_in :
    (j k : Text) (vars : List (Text × Text))
    → get_in j (unset_in k vars) ≡ (if equal k j then none else get_in j vars)
unfolding get_in unset_in
get_in-unset_in j k [] = ground arith
get_in-unset_in j k ((n, w) ∷ vars) =
    ground (arith, equal_iff n k, equal_iff n j, equal_iff k j, get_in-unset_in j k vars)

-- A `set` that succeeds changes its own variable and no other.
pub get-set :
    (env env' : Env) (k v j : Text)
    → set env k v ≡ ok env'
    → get env' j ≡ (if equal k j then some v else get env j)
unfolding set get
get-set env env' k v j h = ground (arith, get_in-set_in j k v env.vars)

pub get-set_self : (env env' : Env) (k v : Text) → set env k v ≡ ok env' → get env' k ≡ some v
get-set_self env env' k v h = rw (get-set env env' k v k h, equal_refl) refl

pub get-set_other :
    (env env' : Env) (k v j : Text)
    → equal k j ≡ false
    → set env k v ≡ ok env'
    → get env' j ≡ get env j
get-set_other env env' k v j n h = rw (get-set env env' k v j h, n) refl

pub get-unset :
    (env : Env) (k j : Text) → get (unset env k) j ≡ (if equal k j then none else get env j)
unfolding unset get
get-unset env k j = get_in-unset_in j k env.vars
