-- ===== src/Config/Layers.antt =====
-- The two files of bootguard/src/config.rs, one laid over the other.
use agenticlinux.Prelude.{
  ℕ, true, false, max, min, ◌≡◌, refl, ◌∙◌, ap, inl, inr, ◌||◌, Bool-cases, Option-cases, List, [],
  ◌∷◌, Option, none, some, arith, if◌then◌else◌,
}
use mathlib.Core.Option
use agenticlinux.Text.{Text, codes, equal, trim, is_empty, starts_with}
use agenticlinux.Text.Split.{lines, split_once, split_whitespace}
use agenticlinux.Text.Decimal.{parse_u64}
use agenticlinux.Text.Laws.{equal_iff}
use agenticlinux.Config.{
  Map, lookup, insert, extend, insert_line, parse_lines, parse_kv, layer, with_number, clamp,
  with_words, bool_or, from_map, load,
}

abbrev pub or_else : Option Text → Option Text → Option Text
or_else (some v) d = some v
or_else none d = d

lookup-insert :
    (j k v : Text) (m : Map) → lookup j (insert k v m) ≡ (if equal k j then some v else lookup j m)
unfolding lookup insert
lookup-insert j k v [] = refl
lookup-insert j k v ((i, w) ∷ m) =
    ground (arith, equal_iff i k, equal_iff i j, equal_iff k j, lookup-insert j k v m)

-- No key stands twice.
abbrev pub NodupKeys : Map → Type 0
NodupKeys [] = Unit
NodupKeys ((k, _) ∷ m) = (lookup k m ≡ none) × NodupKeys m

insert-NodupKeys : (k v : Text) (m : Map) → NodupKeys m → NodupKeys (insert k v m)
unfolding insert
insert-NodupKeys k v [] h = (unfold lookup in refl, tt)
insert-NodupKeys k v ((j, w) ∷ m) (fresh, h) =
    ground (arith, equal_iff j k, equal_iff k j, lookup-insert j k v m, insert-NodupKeys k v m h)

pushed :
    (j k v : Text) (m other : Map)
    → lookup k other ≡ none
    → or_else (lookup j other) (lookup j (insert k v m))
      ≡ or_else (lookup j ((k, v) ∷ other)) (lookup j m)
unfolding lookup
pushed j k v m other fresh = ground (arith, equal_iff k j, lookup-insert j k v m)

lookup-extend :
    (j : Text) (m other : Map)
    → NodupKeys other
    → lookup j (extend m other) ≡ or_else (lookup j other) (lookup j m)
unfolding extend
lookup-extend j m [] h = unfold lookup in refl
lookup-extend j m ((k, v) ∷ other) (fresh, h) =
    lookup-extend j (insert k v m) other h ∙ pushed j k v m other fresh

insert_line-NodupKeys : (l : Text) (m : Map) → NodupKeys m → NodupKeys (insert_line l m)
unfolding insert_line
insert_line-NodupKeys l m h = elim (Bool-cases (is_empty l || starts_with l (b'#' ∷ []))) [
  | inl skipped ↦ rw skipped h
  | inr kept ↦ elim (Option-cases (split_once b'=' l)) [
    | inl e ↦ rw (kept, e) h
    | inr ((k, v), e) ↦ rw (kept, e) (insert-NodupKeys (trim k) _ m h)
  ]
]

parse_lines-NodupKeys : (m : Map) (ls : List Text) → NodupKeys m → NodupKeys (parse_lines m ls)
unfolding parse_lines
parse_lines-NodupKeys m [] h = h
parse_lines-NodupKeys m (l ∷ ls) h =
    parse_lines-NodupKeys (insert_line (trim l) m) ls (insert_line-NodupKeys (trim l) m h)

pub parse_kv-NodupKeys : (text : Text) → NodupKeys (parse_kv text)
unfolding parse_kv
parse_kv-NodupKeys text = parse_lines-NodupKeys [] (lines text) tt

or_else_none : (k : Text) (o : Option Text) → or_else o (lookup k []) ≡ o
unfolding lookup
or_else_none k none = refl
or_else_none k (some v) = refl

lookup-layer :
    (k vendor admin : Text)
    → lookup k (layer (layer [] (some vendor)) (some admin))
      ≡ or_else (lookup k (parse_kv admin)) (lookup k (parse_kv vendor))
lookup-layer k vendor admin =
    lookup-extend k (extend [] (parse_kv vendor)) (parse_kv admin) (parse_kv-NodupKeys admin)
    ∙ ap (or_else (lookup k (parse_kv admin)))
        (lookup-extend k [] (parse_kv vendor) (parse_kv-NodupKeys vendor) ∙ or_else_none k _)

-- What a key is set to: the admin's value if the admin's file sets it, and otherwise the vendor's.
abbrev pub setting : Text → Text → Text → Option Text
setting vendor admin k = or_else (lookup k (parse_kv admin)) (lookup k (parse_kv vendor))

abbrev number : Option Text → Option ℕ
number none = none
number (some s) = parse_u64 s

abbrev pub value_or {ℓ} : {A : Type ℓ} → Option A → A → A
value_or none d = d
value_or (some a) d = a

-- A field that is a number: kept within its bounds, or the default where there is none to read.
abbrev pub bounded : Option Text → (ℕ → ℕ) → ℕ → ℕ
bounded o f d = value_or (Option.map f (number o)) d

value_or-map :
    (o : Option ℕ) (f : ℕ → ℕ) (d : ℕ)
    → elim o [ some v ↦ f v | none ↦ d ] ≡ value_or (Option.map f o) d
value_or-map none f d = refl
value_or-map (some n) f d = refl

with_number_lem : (o : Option Text) (f : ℕ → ℕ) (d : ℕ) → with_number o f d ≡ bounded o f d
with_number_lem none f d = refl
with_number_lem (some s) f d = value_or-map (parse_u64 s) f d

clamp_lem : (v : ℕ) → clamp v 1 20 ≡ max 1 (min v 20)
clamp_lem v = ground arith

max_attempts_lem :
    (o : Option Text) → with_number o (λ v. clamp v 1 20) 3 ≡ bounded o (λ v. max 1 (min v 20)) 3
max_attempts_lem o =
    with_number_lem o (λ v. clamp v 1 20) 3 ∙ (λ i. bounded o (λ v. clamp_lem v i) 3)

with_words_lem :
    (o : Option Text) (d : List Text) → with_words o d ≡ value_or (Option.map split_whitespace o) d
with_words_lem none d = refl
with_words_lem (some s) d = refl

-- With both files read, each option of the configuration is decided by the admin's value of its key if
-- the admin's file sets it, and otherwise by the vendor's: the switches by `bool_or` over their
-- defaults, the numbers within their bounds where they can be read as one, and the units by the words
-- of the value.
pub load-setting :
    (vendor admin : Text)
    → load (some vendor) (some admin) ≡ record {
      enabled = bool_or (setting vendor admin (codes "ENABLED")) true;
      preflight = bool_or (setting vendor admin (codes "PREFLIGHT")) true;
      max_attempts =
          bounded (setting vendor admin (codes "MAX_ATTEMPTS")) (λ v. max 1 (min v 20)) 3;
      trial_timeout = bounded (setting vendor admin (codes "TRIAL_TIMEOUT")) (λ v. max v 10) 600;
      check_timeout = bounded (setting vendor admin (codes "CHECK_TIMEOUT")) (λ v. max v 1) 120;
      required_units =
          value_or (Option.map split_whitespace (setting vendor admin (codes "REQUIRED_UNITS"))) [];
      fail_on_failed_units = bool_or (setting vendor admin (codes "FAIL_ON_FAILED_UNITS")) false;
    }
unfolding load from_map
load-setting vendor admin =
    rw
      (
        lookup-layer (codes "ENABLED") vendor admin,
        lookup-layer (codes "PREFLIGHT") vendor admin,
        lookup-layer (codes "MAX_ATTEMPTS") vendor admin,
        lookup-layer (codes "TRIAL_TIMEOUT") vendor admin,
        lookup-layer (codes "CHECK_TIMEOUT") vendor admin,
        lookup-layer (codes "REQUIRED_UNITS") vendor admin,
        lookup-layer (codes "FAIL_ON_FAILED_UNITS") vendor admin,
        max_attempts_lem (setting vendor admin (codes "MAX_ATTEMPTS")),
        with_number_lem (setting vendor admin (codes "TRIAL_TIMEOUT")),
        with_number_lem (setting vendor admin (codes "CHECK_TIMEOUT")),
        with_words_lem (setting vendor admin (codes "REQUIRED_UNITS")),
      )
      refl
