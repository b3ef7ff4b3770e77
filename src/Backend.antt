-- ===== src/Backend.antt =====
-- bootguard/src/backend.rs: the two boot stacks, ostree with GRUB and composefs with systemd-boot.
pub mod ArmTrial
pub mod Confirmed
pub mod Refines
pub mod Unmarked
pub mod Report
use agenticlinux.Prelude.{
  ℕ, ◌-◌, ◌^◌, Bool, true, false, ◌||◌, List, [], ◌∷◌, ◌++◌, Option, none, some, Result, ok, err,
  ltb, if◌then◌else◌,
}
use agenticlinux.Prelude.Results.{ok_or, guard}
use agenticlinux.Prelude.Int.{ℤ, pos, negsuc}
use agenticlinux.Text.{Text, codes, equal}
use agenticlinux.Machine.Monad.{Machine, Io, ◌>>=◌, ◌>>◌, pure, lift}
use agenticlinux.Sys.{is_safe_id}
use agenticlinux.Grubenv.{Env, get, get_i32}
use agenticlinux.Grub.{v_counter, v_target, read_env}
use agenticlinux.Grub as Grub
use agenticlinux.Sdboot.Files as SdBoot
use agenticlinux.Bootc.{Deployment, Status, dir}
use agenticlinux.Bootc.Commands.{System, booted_is_default, rollback}
use agenticlinux.Bootc.Commands as Bootc

pub data Backend : Type 0 where
  grub sd_boot : Backend

abbrev name_or_unknown : Option Text → Text
name_or_unknown none = codes "(unknown)"
name_or_unknown (some l) = l

abbrev unsupported : Option Text → Text
unsupported l =
    codes "unsupported bootloader " ++ (name_or_unknown l ++ codes " on the composefs backend")

-- By the composefs id and the loader of the booted deployment.
unfoldable pub stack_of : Option Text → Option Text → Result Backend
stack_of none l = ok grub
stack_of (some _) none = err (unsupported none)
stack_of (some _) (some l) =
    if equal l (codes "systemd") then ok sd_boot else err (unsupported (some l))

unfoldable pub detect_booted : Option Deployment → Result Backend
detect_booted none = err (codes "no booted deployment")
detect_booted (some b) = stack_of b.verity b.loader

unfoldable pub detect : Status → Result Backend
detect st = detect_booted st.booted

-- `left as i32`
unfoldable pub as_i32 : ℕ → ℤ
as_i32 n = if ltb n (2 ^ 31) then pos n else negsuc (2 ^ 32 - n - 1)

abbrev pub Found : Type 0
Found = Option ℤ × Option Text

abbrev counter_of : Option (Text × ℕ) → Option ℤ
counter_of none = none
counter_of (some (_, left)) = some (as_i32 left)

-- A counted entry without a record is still a trial of what was booted.
unfoldable pub target_of : Option (Text × Text) → Option (Text × ℕ) → Text → Option Text
target_of (some (t, _)) sel booted = some t
target_of none (some _) booted = some booted
target_of none none booted = none

abbrev sd_boot_trial : Text → Io Found
sd_boot_trial booted w =
    let (sel, w1) = SdBoot.selected w in
    let (t, w2) = SdBoot.load_trial w1 in (ok (counter_of sel, target_of t sel booted), w2)

-- The trial in progress: the tries left after this boot's own one, and the target.
unfoldable pub trial : Backend → Deployment → Io Found
trial grub booted = do env ← read_env; pure (get_i32 env v_counter, get env v_target)
trial sd_boot booted = sd_boot_trial booted.digest

unfoldable pub either_staged : Result Bool × Machine → Result Bool → Result Bool × Machine
either_staged (r, w) (err e) = (err e, w)
either_staged (err e, w) (ok a) = (err e, w)
either_staged (ok b, w) (ok a) = (ok (a || b), w)

module _ (sys : System) where
  unfoldable pub setup : Backend → Io (Unit {0})
  setup grub = Grub.setup sys.host
  setup sd_boot = SdBoot.setup

  unfoldable pub arm_stack : Backend → Deployment → ℕ → Io (Unit {0})
  arm_stack grub staged attempts = Grub.arm sys.host staged.digest attempts
  arm_stack sd_boot staged attempts = SdBoot.arm sys.host staged attempts

  -- Starts a trial of the staged deployment.
  unfoldable pub arm : Backend → Deployment → ℕ → Io (Unit {0})
  arm b staged attempts =
      lift (
        guard (is_safe_id staged.digest)
          (codes "unexpected image digest \"" ++ (staged.digest ++ codes "\"")))
      >> arm_stack b staged attempts

  -- The trial is not tracked any more; the entries stay as they are.
  unfoldable pub forget : Backend → Io (Unit {0})
  forget grub = Grub.clear_trial sys.host
  forget sd_boot = SdBoot.clear_trial

  unfoldable pub discard_arm : Backend → Machine → Machine
  discard_arm b w = (forget b w).1

  unfoldable pub after_forget : Backend → Io (Unit {0})
  after_forget grub = pure tt
  after_forget sd_boot = SdBoot.bless sys.host

  -- The trial succeeded, or is abandoned.
  unfoldable pub confirm : Backend → Io (Unit {0})
  confirm b = forget b >> after_forget b

  unfoldable pub rollback_if : Bool → Io (Unit {0})
  rollback_if true = rollback sys
  rollback_if false = pure tt

  abbrev marked : Bool → Result (Unit {0})
  marked true = ok tt
  marked false = err (codes "no boot entry found for the failed deployment")

  -- On the failed deployment: the previous one becomes the default.
  unfoldable pub roll_back_from : Backend → Deployment → Io (Unit {0})
  roll_back_from grub failed = do is_default ← booted_is_default sys; rollback_if is_default
  roll_back_from sd_boot failed = do
    verity ← lift (ok_or failed.verity (codes "no composefs id"))
    found ← SdBoot.mark_bad sys.host verity
    lift (marked found)

  abbrev now_default : Bool → Result (Unit {0})
  now_default true = ok tt
  now_default false =
      err (codes "bootc rollback ran but the booted deployment is still not the default")

  unfoldable pub ensure_default : Bool → Io (Unit {0})
  ensure_default true = pure tt
  ensure_default false = do
    rollback sys
    is_default ← booted_is_default sys
    lift (now_default is_default)

  unfoldable pub mark_trial_bad : Option (Text × Text) → Io (Unit {0})
  mark_trial_bad none = pure tt
  mark_trial_bad (some (_, verity)) = do _ ← SdBoot.mark_bad sys.host verity; pure tt

  abbrev mark_loaded : Option (Text × Text) × Machine → Result (Unit {0}) × Machine
  mark_loaded (t, w) = mark_trial_bad t w

  -- On the previous deployment after a fallback: it stays the default.
  unfoldable pub make_fallback_permanent : Backend → Io (Unit {0})
  make_fallback_permanent grub = do is_default ← booted_is_default sys; ensure_default is_default
  make_fallback_permanent sd_boot = λ w. mark_loaded (SdBoot.load_trial w)

  unfoldable pub unstage : Backend → Io Bool
  unstage grub = Bootc.unstage
  unstage sd_boot = SdBoot.unstage sys.host

  abbrev with_mounted {ℓ} :
      {A : Type ℓ} → Text → (Text → List Text → Machine → A × Machine) → Text → Io A
  with_mounted verity f tree w =
      let (a, w') = f tree (SdBoot.state_etc verity ∷ []) w in
      (ok a, SdBoot.unmount_staged sys.host w')

  -- Runs `f` on the tree of the staged deployment and on further directories like /etc; a mounted
  -- tree is unmounted again.
  unfoldable pub with_staged_tree {ℓ} :
      {A : Type ℓ} → Backend → Deployment → (Text → List Text → Machine → A × Machine) → Io A
  with_staged_tree grub dep f w = let (a, w') = f (dir dep) [] w in (ok a, w')
  with_staged_tree sd_boot dep f w =
      (lift (ok_or dep.verity (codes "staged deployment has no composefs id")) >>= λ verity.
      SdBoot.mount_staged sys.host verity >>= λ tree. with_mounted verity f tree)
        w

  -- Both markers are removed, whichever stack this is.
  unfoldable pub unstage_any : Io Bool
  unstage_any w =
      let (ostree, w1) = Bootc.unstage w in either_staged (SdBoot.unstage sys.host w1) ostree

abbrev has_counter : Result Env → Bool
has_counter (err _) = false
has_counter (ok env) = elim (get env v_counter) [ some _ ↦ true | none ↦ false ]

unfoldable pub is_pending : Option (Text × ℕ) × Machine → Bool × Machine
is_pending (none, w) = (false, w)
is_pending (some _, w) = (true, w)

unfoldable pub or_pending : Bool → Machine → Bool × Machine
or_pending true w = (true, w)
or_pending false w = is_pending (SdBoot.pending w)

-- Judged from the boot loader's state alone.
unfoldable pub trial_armed_without_bootc : Machine → Bool × Machine
trial_armed_without_bootc w = let (env, w') = read_env w in or_pending (has_counter env) w'
