-- ===== src/Grub.antt =====
-- bootguard/src/grub.rs: GRUB boot counting on ostree. The three variables stand in grubenv, and a
-- snippet in custom.cfg decrements the counter on every boot.
pub mod InPlace
pub mod Arm
pub mod Setup
pub mod Trial
pub mod Clear
pub mod Operations
pub mod Snippet
pub mod Installed
use agenticlinux.Prelude.{
  ℕ, Bool, true, false, not, ◌&&◌, ◌||◌, List, [], ◌∷◌, ◌++◌, Option, none, some, Result, ok, err,
  ◌==◌, if◌then◌else◌,
}
use agenticlinux.Prelude.Results.{◌>>=◌ as and_then}
use agenticlinux.Text.{Text, codes, equal, ends_with, trim_matches, any, has_text}
use agenticlinux.Text.Split.{lines, split_whitespace}
use agenticlinux.Text.Decimal.{to_string}
use agenticlinux.Utf8.{Bytes, encode}
use agenticlinux.Machine.Monad.{Machine, Io, ◌>>=◌, ◌>>◌, lift, pure, fail, try}
use agenticlinux.Machine.Fs.{IoResult, done, not_found, failed, read_to_string, write}
use agenticlinux.Machine.Helpers.{
  Host, map_err, map_message, read_or_empty, freeze_thaw, with_boot_rw, acquire, release,
}
use agenticlinux.Grubenv.{Env, set, unset}
use agenticlinux.Grubenv.File.{read_file, write_in_place}
use agenticlinux.State.{mark_begin, snippet, merge_custom_cfg}

abbrev pub grubenv : Text
grubenv = codes "/boot/grub2/grubenv"

abbrev pub grub_cfg : Text
grub_cfg = codes "/boot/grub2/grub.cfg"

abbrev pub custom_cfg : Text
custom_cfg = codes "/boot/grub2/custom.cfg"

abbrev pub v_counter : Text
v_counter = codes "bg_counter"

abbrev pub v_target : Text
v_target = codes "bg_target"

abbrev pub v_fallback : Text
v_fallback = codes "fallback"

unfoldable pub read_env : Io Env
read_env = do (env, _) ← read_file grubenv; pure env

-- `clear_trial`'s edit: the three variables go.
unfoldable pub cleared : Env → Result Env
unfolding unset
cleared e = ok (unset (unset (unset e v_counter) v_target) v_fallback)

-- `arm`'s edit.
unfoldable pub armed : Text → ℕ → Env → Result Env
unfolding set
armed digest attempts e =
    and_then (set e v_counter (to_string attempts))
      (λ e1. and_then (set e1 v_target digest) (λ e2. set e2 v_fallback (codes "1")))

-- A word that loads a file.
abbrev is_load : Text → Bool
is_load w = equal w (codes "source") || equal w (codes "configfile") || equal w (codes ".")

abbrev is_quote : ℕ → Bool
is_quote c = c == b'"' || c == b'\''

abbrev is_custom_cfg : Text → Bool
is_custom_cfg f = equal f (codes "custom.cfg") || ends_with f (codes "/custom.cfg")

abbrev pub loads_custom_cfg : List Text → Bool
loads_custom_cfg (w ∷ a ∷ _) = is_load w && is_custom_cfg (trim_matches is_quote a)
loads_custom_cfg _ = false

unfoldable pub sources_custom_cfg : Text → Bool
unfolding equal ends_with trim_matches any
sources_custom_cfg text = any (λ l. loads_custom_cfg (split_whitespace l)) (lines text)

-- Both the begin mark and the snippet stand in the text.
unfoldable pub has_snippet : Text → Bool
has_snippet t = has_text t mark_begin && has_text t snippet

abbrev pub present_in : IoResult Text → Bool
present_in (done t) = has_snippet t
present_in not_found = false
present_in (failed _) = false

unfoldable pub snippet_present : Machine → Bool × Machine
unfolding read_to_string has_snippet
snippet_present w = let (r, w') = read_to_string custom_cfg w in (present_in r, w')

-- The block of `update_env` that holds /boot writable.
unfoldable pub edit_env : (Env → Result Env) → Io (Unit {0})
edit_env f = do
  (env, size) ← read_file grubenv
  env' ← lift (f env)
  write_in_place grubenv env' size

abbrev pub checkpoint : Io (Unit {0})
checkpoint =
    map_message (λ e. codes "could not checkpoint /boot: " ++ e) (freeze_thaw (codes "/boot"))

module _ (h : Host) where
  -- Edits grubenv in place, then checkpoints /boot.
  unfoldable pub update_env : (Env → Result Env) → Io (Unit {0})
  update_env f = do with_boot_rw h (edit_env f); checkpoint

  unfoldable pub clear_trial : Io (Unit {0})
  clear_trial = update_env cleared

  unfoldable pub install_snippet : Io (Unit {0})
  install_snippet = do
    existing ← read_or_empty custom_cfg
    let merged = merge_custom_cfg existing
    with_boot_rw h (
        map_err (write custom_cfg (encode merged))
          (λ e. codes "write " ++ (custom_cfg ++ (codes ": " ++ e))))
    freeze_thaw (codes "/boot")

  unfoldable pub unless_present : Bool × Machine → Result (Unit {0}) × Machine
  unless_present (true, w) = (ok tt, w)
  unless_present (false, w) = install_snippet w

  unfoldable pub install : Bool → Io (Unit {0})
  install true w = unless_present (snippet_present w)
  install false w =
      (err (grub_cfg ++ codes " does not source custom.cfg, so boot counting cannot work"), w)

  -- Installs the snippet, if grub.cfg loads custom.cfg at all.
  unfoldable pub setup : Io (Unit {0})
  setup = do
    text ←
        map_err (read_to_string grub_cfg)
          (λ e. codes "cannot read " ++ (grub_cfg ++ (codes ": " ++ e)))
    install (sources_custom_cfg text)

  unfoldable pub arm : Text → ℕ → Io (Unit {0})
  arm digest attempts = do setup; update_env (armed digest attempts)
