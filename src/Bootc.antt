-- ===== src/Bootc.antt =====
-- bootguard/src/bootc.rs: what is read out of `bootc status --json` and `ostree admin status`.
-- serde_json is a parameter: the status comes as the raw structures that it fills.
pub mod Line
pub mod Order
pub mod Commands
use mathlib.Core.Option
use agenticlinux.Prelude.{
  ℕ, zero, suc, length, Bool, true, false, not, ◌&&◌, List, [], ◌∷◌, ◌++◌, Option, none, some, ◌==◌,
  if◌then◌else◌, Result, ok, err,
}
use agenticlinux.Text.{
  Text, codes, starts_with, has_char, has_text, trim_start_matches, strip_prefix,
}
use agenticlinux.Text.Split.{lines, split_whitespace}
use agenticlinux.Text.Decimal.{to_string}

pub record Composefs : Type 0 where
  pub verity : Option Text
  pub bootloader : Option Text

pub record Img : Type 0 where
  pub image_digest : Option Text

pub record Ostree : Type 0 where
  pub checksum : Option Text
  pub deploy_serial : Option ℕ
  pub stateroot : Option Text

pub record Entry : Type 0 where
  pub image : Option Img
  pub ostree : Option Ostree
  pub composefs : Option Composefs

pub record Host : Type 0 where
  pub booted : Option Entry
  pub staged : Option Entry
  pub rollback : Option Entry

pub record Raw : Type 0 where
  pub status : Option Host

pub record Deployment : Type 0 where
  pub digest : Text
  pub checksum : Text
  pub serial : ℕ
  pub stateroot : Text
  pub verity : Option Text
  pub loader : Option Text

-- The deployment's directory.
unfoldable pub dir : Deployment → Text
dir d =
    codes "/sysroot/ostree/deploy/"
    ++ (d.stateroot ++ (codes "/deploy/" ++ (d.checksum ++ (b'.' ∷ to_string d.serial))))

pub record Status : Type 0 where
  pub booted : Option Deployment
  pub staged : Option Deployment
  pub rollback : Option Deployment

abbrev pub get_or {ℓ} : {A : Type ℓ} → Option A → A → A
get_or none d = d
get_or (some x) d = x

abbrev no_ostree : Ostree
no_ostree = record { checksum = none; deploy_serial = none; stateroot = none }

abbrev deployment : Text → Ostree → Option Composefs → Deployment
deployment digest o c = record {
  digest = digest;
  checksum = get_or o.checksum [];
  serial = get_or o.deploy_serial 0;
  stateroot = get_or o.stateroot (codes "default");
  verity = Option.bind c (λ (x : Composefs). x.verity);
  loader = Option.bind c (λ (x : Composefs). x.bootloader);
}

abbrev conv_image : Entry → Option Img → Option Deployment
conv_image e none = none
conv_image e (some i) = elim i.image_digest [
  | some digest ↦ some (deployment digest (get_or e.ostree no_ostree) e.composefs)
  | none ↦ none
]

-- An entry with no image digest is no deployment.
unfoldable pub conv : Option Entry → Option Deployment
conv none = none
conv (some e) = conv_image e e.image

abbrev no_host : Host
no_host = record { booted = none; staged = none; rollback = none }

unfoldable pub status_of : Raw → Status
unfolding conv
status_of raw =
    let h = get_or raw.status no_host in
    record { booted = conv h.booted; staged = conv h.staged; rollback = conv h.rollback }

abbrev is_space : ℕ → Bool
is_space c = c == b' '

-- `t.trim_start_matches("* ")`, on the text that the first `fuel` characters may still shorten.
unfoldable pub trim_stars : ℕ → Text → Text
trim_stars zero t = t
trim_stars (suc fuel) t = elim (strip_prefix t (codes "* ")) [
  | some rest ↦ trim_stars fuel rest
  | none ↦ t
]

-- The second word, if the line has one.
abbrev pub second_word : List Text → Option Text
second_word (_ ∷ id ∷ _) = some id
second_word _ = none

-- A line that is a deployment in the boot order: it has an id with a dot, and is not staged.
abbrev pub is_deployment : Text → Option Text → Bool
is_deployment l (some id) = has_char b'.' id && not (has_text l (codes "(staged)"))
is_deployment l none = false

abbrev pub unindented : Text → Text
unindented l = trim_start_matches is_space l

abbrev pub id_of : Text → Option Text
id_of l = let t = unindented l in second_word (split_whitespace (trim_stars (length t) t))

abbrev pub is_booted : Text → Bool
is_booted l = starts_with (unindented l) (codes "* ")

unfoldable pub first_deployment : List Text → Result Bool
unfolding trim_stars
first_deployment [] = err (codes "no deployment found in `ostree admin status`")
first_deployment (l ∷ ls) =
    let rest = first_deployment ls in if is_deployment l (id_of l) then ok (is_booted l) else rest

unfoldable pub parse_booted_is_default : Text → Result Bool
unfolding first_deployment
parse_booted_is_default out = first_deployment (lines out)
