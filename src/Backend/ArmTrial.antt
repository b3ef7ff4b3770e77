-- ===== src/Backend/ArmTrial.antt =====
-- `Backend::arm` and `Backend::trial` of bootguard/src/backend.rs, on GRUB, one after the other.
use agenticlinux.Prelude.{ℕ, ◌<◌, ◌^◌, ◌≡◌, refl, ◌∙◌, true, none, some, ok}
use agenticlinux.Prelude.Int.{pos}
use agenticlinux.Text.{Text, codes}
use agenticlinux.Utf8.{Bytes}
use agenticlinux.Machine.Monad.{Machine}
use agenticlinux.Machine.Fs.{lookup, next_fault, read}
use agenticlinux.Machine.Helpers.{Host}
use agenticlinux.Machine.Keeps.{LeavesAlone}
use agenticlinux.Sys.{is_safe_id}
use agenticlinux.Grubenv.{Env, parse, get, get_i32}
use agenticlinux.Grubenv.File.{read_file}
use agenticlinux.Grubenv.RoundTrip.{IsWritable}
use agenticlinux.Grub.{grubenv, v_counter, v_target, read_env, arm}
use agenticlinux.Grub.Trial.{arm-TellsTrial}
use agenticlinux.Bootc.{Deployment}
use agenticlinux.Backend.{grub, trial}

pub read_env_found :
    (w : Machine) (bytes : Bytes) (env : Env)
    → next_fault w.faults ≡ none
    → lookup grubenv w.files ≡ some bytes
    → parse bytes ≡ ok env
    → (read_env w).0 ≡ ok env
unfolding read_env read_file read
read_env_found w bytes env n e p = rw (n, e, p) refl

pub trial_of_env :
    (w : Machine) (booted : Deployment) (env : Env)
    → (read_env w).0 ≡ ok env
    → (trial grub booted w).0 ≡ ok (get_i32 env v_counter, get env v_target)
unfolding trial
trial_of_env w booted env e = rw e refl

-- After a successful `arm` on GRUB of a safe digest with a number of attempts below 2^31, from a block
-- whose names could all be written, a boot whose read of grubenv does not fail sees a trial of that
-- digest with that counter, whichever deployment was booted, if `mount` leaves grubenv alone.
pub arm-trial :
    (h : Host)
    → LeavesAlone h (codes "mount") grubenv
    → (digest : Text) (n : ℕ) (w : Machine) (old : Bytes) (env : Env) → is_safe_id digest ≡ true
    → n < 2 ^ 31
    → lookup grubenv w.files ≡ some old
    → parse old ≡ ok env
    → IsWritable env
    → (arm h digest n w).0 ≡ ok tt
    → next_fault (arm h digest n w).1.faults ≡ none
    → (booted : Deployment)
    → (trial grub booted (arm h digest n w).1).0 ≡ ok (some (pos n), some digest)
arm-trial h mount digest n w old env safe small was parsed writable armed calm booted =
    let (new, env', now, _, p, tells) =
      arm-TellsTrial h mount digest n w old env safe small was parsed writable armed in
    let v = (arm h digest n w).1 in
    trial_of_env v booted env' (read_env_found v new env' calm now p)
    ∙ rw (tells.counter, tells.target) refl
