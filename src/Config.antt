-- ===== src/Config.antt =====
-- bootguard/src/config.rs: the configuration. A duration is its seconds.
pub mod Bounds
pub mod Layers
use agenticlinux.Prelude.{
  ℕ, Bool, true, false, not, ◌&&◌, ◌||◌, List, [], ◌∷◌, ◌++◌, Option, none, some, max, min, ltb,
  ◌==◌, if◌then◌else◌,
}
use agenticlinux.Text.{Text, codes, equal, starts_with, is_empty, trim, trim_matches}
use agenticlinux.Text.Split.{lines, split_once, split_whitespace}
use agenticlinux.Text.Decimal.{parse_u64}

pub record Config : Type 0 where
  pub enabled : Bool
  pub preflight : Bool
  pub max_attempts : ℕ
  pub trial_timeout : ℕ
  pub check_timeout : ℕ
  pub required_units : List Text
  pub fail_on_failed_units : Bool

abbrev pub default : Config
default = record {
  enabled = true;
  preflight = true;
  max_attempts = 3;
  trial_timeout = 600;
  check_timeout = 120;
  required_units = [];
  fail_on_failed_units = false;
}

-- A `HashMap<String, String>` as the list of its entries; a key has one entry at most.
abbrev pub Map : Type 0
Map = List (Text × Text)

unfoldable pub lookup : Text → Map → Option Text
lookup k [] = none
lookup k ((j, v) ∷ m) = if equal j k then some v else lookup k m

-- `m.insert(k, v)`
unfoldable pub insert : Text → Text → Map → Map
insert k v [] = (k, v) ∷ []
insert k v ((j, w) ∷ m) = if equal j k then (k, v) ∷ m else (j, w) ∷ insert k v m

-- `m.extend(other)`
unfoldable pub extend : Map → Map → Map
unfolding insert
extend m [] = m
extend m ((k, v) ∷ other) = extend (insert k v m) other

abbrev insert_pair : Option (Text × Text) → Map → Map
insert_pair (some (k, v)) m = insert (trim k) (trim_matches (λ c. c == b'"') (trim v)) m
insert_pair none m = m

-- One line of the file, trimmed: an empty line, a comment, or one without `=` is passed over.
unfoldable pub insert_line : Text → Map → Map
unfolding insert
insert_line l m =
    if is_empty l || starts_with l (b'#' ∷ []) then m else insert_pair (split_once b'=' l) m

unfoldable pub parse_lines : Map → List Text → Map
unfolding insert_line
parse_lines m [] = m
parse_lines m (l ∷ ls) = parse_lines (insert_line (trim l) m) ls

unfoldable pub parse_kv : Text → Map
unfolding parse_lines
parse_kv text = parse_lines [] (lines text)

abbrev is_one_of : Text → Text → Text → Text → Bool
is_one_of s a b c = equal s a || equal s b || equal s c

-- The closure `b`: a recognised word, or the default.
unfoldable pub bool_or : Option Text → Bool → Bool
bool_or none d = d
bool_or (some s) d =
    if is_one_of s (codes "1") (codes "true") (codes "yes")
    then true
    else if is_one_of s (codes "0") (codes "false") (codes "no")
    then false
    else d

-- `v.clamp(lo, hi)`
abbrev pub clamp : ℕ → ℕ → ℕ → ℕ
clamp v lo hi = if ltb v lo then lo else if ltb hi v then hi else v

abbrev pub with_number : Option Text → (ℕ → ℕ) → ℕ → ℕ
with_number none f d = d
with_number (some s) f d = elim (parse_u64 s) [ some v ↦ f v | none ↦ d ]

abbrev pub with_words : Option Text → List Text → List Text
with_words none d = d
with_words (some v) d = split_whitespace v

-- `max_attempts` keeps its value through `as u32`: it is 20 at most.
unfoldable pub from_map : Map → Config
unfolding bool_or lookup
from_map m = record {
  enabled = bool_or (lookup (codes "ENABLED") m) default.enabled;
  preflight = bool_or (lookup (codes "PREFLIGHT") m) default.preflight;
  max_attempts =
      with_number (lookup (codes "MAX_ATTEMPTS") m) (λ v. clamp v 1 20) default.max_attempts;
  trial_timeout =
      with_number (lookup (codes "TRIAL_TIMEOUT") m) (λ v. max v 10) default.trial_timeout;
  check_timeout =
      with_number (lookup (codes "CHECK_TIMEOUT") m) (λ v. max v 1) default.check_timeout;
  required_units = with_words (lookup (codes "REQUIRED_UNITS") m) default.required_units;
  fail_on_failed_units =
      bool_or (lookup (codes "FAIL_ON_FAILED_UNITS") m) default.fail_on_failed_units;
}

-- A file that could be read is laid over what came before; one that could not is passed over.
abbrev pub layer : Map → Option Text → Map
layer m none = m
layer m (some t) = extend m (parse_kv t)

-- `load`, from the texts of the two files where they can be read: the defaults' and the admin's.
unfoldable pub load : Option Text → Option Text → Config
unfolding from_map extend parse_kv
load vendor admin = from_map (layer (layer [] vendor) admin)
