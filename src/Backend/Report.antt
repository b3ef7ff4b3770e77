-- ===== src/Backend/Report.antt =====
-- `Backend::report` of bootguard/src/backend.rs: the lines for the command `status`.
use agenticlinux.Prelude.{
  Bool, true, false, List, [], ◌∷◌, ◌++◌, Option, none, some, Result, ok, err,
}
use agenticlinux.Text.{Text, codes}
use agenticlinux.Machine.Monad.{Io, ◌>>=◌}
use agenticlinux.Grubenv.{Env, get}
use agenticlinux.Grub.{v_counter, v_target, v_fallback, read_env, snippet_present}
use agenticlinux.Sdboot.Files as SdBoot
use agenticlinux.Backend.{Backend, grub, sd_boot}

abbrev or_dash : Option Text → Text
or_dash none = codes "-"
or_dash (some t) = t

abbrev yes_no : Bool → Text
yes_no true = codes "true"
yes_no false = codes "false"

abbrev env_line : Env → Text → Text
env_line env k = k ++ (codes ": " ++ or_dash (get env k))

abbrev name_of {ℓ} : {B : Type ℓ} → Option (Text × B) → Option Text
name_of none = none
name_of (some (t, _)) = some t

abbrev is_ok {ℓ} : {A : Type ℓ} → Result A → Bool
is_ok (ok _) = true
is_ok (err _) = false

unfoldable pub grub_lines : Env → Bool → List Text
grub_lines env present =
    env_line env v_counter
    ∷ env_line env v_target
    ∷ env_line env v_fallback
    ∷ (codes "grub snippet installed: " ++ yes_no present)
    ∷ []

abbrev grub_report : Env → Io (List Text)
grub_report env w = let (present, w') = snippet_present w in (ok (grub_lines env present), w')

abbrev sd_boot_report : Io (List Text)
sd_boot_report w =
    let (counted, w1) = SdBoot.pending w in
    let (t, w2) = SdBoot.load_trial w1 in
    let (supported, w3) = SdBoot.setup w2 in
    (
      ok (
          (codes "counted entry: " ++ or_dash (name_of counted))
          ∷ (codes "trial: " ++ or_dash (name_of t))
          ∷ (codes "boot counting supported: " ++ yes_no (is_ok supported))
          ∷ []),
      w3,
    )

-- The lines for `status`.
unfoldable pub report : Backend → Io (List Text)
report grub = do env ← read_env; grub_report env
report sd_boot = sd_boot_report
