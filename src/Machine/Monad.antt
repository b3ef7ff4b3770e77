-- ===== src/Machine/Monad.antt =====
-- The state that every command of the program passes on, and the monad over it.
use agenticlinux.Prelude.{ℕ, ◌≡◌, refl, Bool, List, Option, Result, ok, err}
use agenticlinux.Text.{Text}
use agenticlinux.Utf8.{Bytes}

-- A fault of a file operation: its message, and for a write whether the file could be opened, and how
-- many bytes it had put down before.
pub record Fault : Type 0 where
  pub message : Text
  pub opens : Bool
  pub written : ℕ

abbrev pub Files : Type 0
Files = List (Text × Bytes)

pub record Machine : Type 0 where
  pub files : Files
  pub dirs : List Text
  -- For each file operation to come, the fault that strikes it.
  pub faults : List (Option Fault)
  -- The commands run so far, the last one first.
  pub log : List (Text × List Text)

-- A computation that may fail with a message, as the source's `Result<T, String>`.
abbrev pub Io {ℓ} : Type ℓ → Type ℓ
Io A = Machine → Result A × Machine

abbrev pub resume {ℓ κ} :
    {A : Type ℓ} {B : Type κ} → Result A → Machine → (A → Io B) → Result B × Machine
resume (ok a) w f = f a w
resume (err e) w f = (err e, w)

infixl 5 ◌>>=◌ ◌>>◌
abbrev pub ◌>>=◌ {ℓ κ} : {A : Type ℓ} {B : Type κ} → Io A → (A → Io B) → Io B
◌>>=◌ m f w = let (r, w') = m w in resume r w' f

abbrev pub ◌>>◌ {ℓ} : {B : Type ℓ} → Io (Unit {0}) → Io B → Io B
m >> k = m >>= λ _. k

abbrev pub pure {ℓ} : {A : Type ℓ} → A → Io A
pure a w = (ok a, w)

abbrev pub fail {ℓ} : {A : Type ℓ} → Text → Io A
fail e w = (err e, w)

-- A pure `Result` with `?`.
abbrev pub lift {ℓ} : {A : Type ℓ} → Result A → Io A
lift r w = (r, w)

-- What follows a computation whose failure is looked at: `match m { Ok.. Err.. }`.
abbrev pub try {ℓ} : {A : Type ℓ} → Io A → Io (Result A)
try m w = let (r, w') = m w in (ok r, w')

resume_ok {ℓ κ} :
    {A : Type ℓ} {B : Type κ} (r : Result A) (v : Machine) (f : A → Io B) {b : B}
    → (resume r v f).0 ≡ ok b
    → (a : A) × (r ≡ ok a) × ((f a v).0 ≡ ok b) × ((resume r v f).1 ≡ (f a v).1)
resume_ok (ok a) v f h = (a, refl, h, refl)
resume_ok (err e) v f h = cc

-- Inversion of a bind that succeeded: both parts did, the second one from where the first ended.
pub bind_ok {ℓ κ} :
    {A : Type ℓ} {B : Type κ} (m : Io A) (f : A → Io B) (w : Machine) {b : B}
    → ((m >>= f) w).0 ≡ ok b
    → (a : A) × ((m w).0 ≡ ok a) × ((f a (m w).1).0 ≡ ok b) × (((m >>= f) w).1 ≡ (f a (m w).1).1)
bind_ok m f w h = resume_ok (m w).0 (m w).1 f h

-- A property of the machine after a bind: after the first part alone, should that fail, and after
-- the second one.
resume_holds {ℓ κ} :
    {A : Type ℓ} {B : Type κ} (P : Machine → Type 0) (r : Result A) (v : Machine) (f : A → Io B)
    → P v
    → ((a : A) → r ≡ ok a → P (f a v).1)
    → P (resume r v f).1
resume_holds P (ok a) v f p q = q a refl
resume_holds P (err e) v f p q = p

pub bind_holds {ℓ κ} :
    {A : Type ℓ} {B : Type κ} (P : Machine → Type 0) (m : Io A) (f : A → Io B) (w : Machine)
    → P (m w).1
    → ((a : A) → (m w).0 ≡ ok a → P (f a (m w).1).1)
    → P ((m >>= f) w).1
bind_holds P m f w p q = resume_holds P (m w).0 (m w).1 f p q
