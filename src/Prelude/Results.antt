-- ===== src/Prelude/Results.antt =====
-- Rust's `Result<T, String>`: an error is its message.
use Prim.Native.Nat.{ℕ}
use mathlib.Core.Path.{◌≡◌, refl}
use mathlib.Core.Logic.{◌⊎◌, inl, inr}
use mathlib.Core.Bool.{Bool, true, false}
use mathlib.Core.List.{List}
use mathlib.Core.Option.{Option, none, some}

pub data Result {ℓ} (A : Type ℓ) : Type ℓ where
  ok : A → Result A
  err : List ℕ → Result A

-- `opt.ok_or(message)`
abbrev pub ok_or {ℓ} : {A : Type ℓ} → Option A → List ℕ → Result A
ok_or none message = err message
ok_or (some value) message = ok value

-- `if !test { return Err(message) }`
abbrev pub guard : Bool → List ℕ → Result (Unit {0})
guard false message = err message
guard true message = ok tt

-- `?`: the rest of the function, unless the first part fails.
abbrev pub ◌>>=◌ {κ ℓ} :
    {First : Type κ} {Rest : Type ℓ} → Result First → (First → Result Rest) → Result Rest
◌>>=◌ (err message) rest = err message
◌>>=◌ (ok value) rest = rest value

abbrev pub ◌>>◌ {ℓ} : {Rest : Type ℓ} → Result (Unit {0}) → Result Rest → Result Rest
◌>>◌ first rest = ◌>>=◌ first (λ _. rest)

infixl 5 ◌>>=◌ ◌>>◌
pub Result-cases {ℓ} :
    {A : Type ℓ} (m : Result A) → ((a : A) × (m ≡ ok a)) ⊎ ((e : List ℕ) × (m ≡ err e))
Result-cases (ok a) = inl (a, refl)
Result-cases (err e) = inr (e, refl)

-- A function that returned a value got past its `?`.
pub >>=-eq-ok {κ ℓ} :
    {First : Type κ} {Rest : Type ℓ} (first : Result First) (rest : First → Result Rest)
    {out : Rest}
    → (first >>= rest) ≡ ok out
    → (value : First) × (first ≡ ok value) × (rest value ≡ ok out)
>>=-eq-ok (err message) rest returned = cc
>>=-eq-ok (ok value) rest returned = (value, refl, returned)

pub ok_injective {ℓ} : {A : Type ℓ} {a b : A} → ◌≡◌ {A = Result A} (ok a) (ok b) → a ≡ b
ok_injective h = cc h

pub err-ne-ok {ℓ} : {A : Type ℓ} {e : List ℕ} {a : A} → ¬ ◌≡◌ {A = Result A} (err e) (ok a)
err-ne-ok h = cc h

pub ok_or_ok {ℓ} : {A : Type ℓ} (o : Option A) (e : List ℕ) {a : A} → ok_or o e ≡ ok a → o ≡ some a
ok_or_ok (some a) e h = cc h
ok_or_ok none e h = cc

pub guard_ok : (b : Bool) (e : List ℕ) {u : Unit {0}} → guard b e ≡ ok u → b ≡ true
guard_ok true e h = refl
guard_ok false e h = cc
