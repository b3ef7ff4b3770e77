-- ===== src/Grub/Operations.antt =====
-- The operations of bootguard/src/grub.rs in any order, successful or not: the size of grubenv.
use agenticlinux.Prelude.{ℕ}
use agenticlinux.Text.{Text, codes}
use agenticlinux.Machine.Monad.{Machine, bind_holds}
use agenticlinux.Machine.Helpers.{Host}
use agenticlinux.Machine.Keeps.{Keeps, LeavesAlone}
use agenticlinux.Grub.{grubenv, armed, cleared, update_env, setup, arm, clear_trial}
use agenticlinux.Grub.InPlace.{HasSize, HasSize-Keeps, update_env-HasSize}
use agenticlinux.Grub.Setup.{setup-Keeps}

-- One operation on the machine, however it ends, or anything that leaves grubenv alone.
pub data Operation (h : Host) (w : Machine) : Machine → Type 0 where
  arming : (digest : Text) (attempts : ℕ) → Operation h w (arm h digest attempts w).1
  clearing : Operation h w (clear_trial h w).1
  setting_up : Operation h w (setup h w).1
  elsewhere : (v : Machine) → Keeps grubenv w.files v.files → Operation h w v

pub data Operations (h : Host) (w : Machine) : Machine → Type 0 where
  none_yet : Operations h w w
  after : {u v : Machine} → Operations h w u → Operation h u v → Operations h w v

module _ (h : Host) (mount : LeavesAlone h (codes "mount") grubenv) (n : ℕ) where
  setup-HasSize : (w : Machine) → HasSize n w.files → HasSize n (setup h w).1.files
  setup-HasSize w s = HasSize-Keeps n w.files (setup h w).1.files (setup-Keeps h mount w) s

  arm-HasSize :
      (digest : Text) (attempts : ℕ) (w : Machine)
      → HasSize n w.files
      → HasSize n (arm h digest attempts w).1.files
  unfolding arm
  arm-HasSize digest attempts w s =
      bind_holds (λ v. HasSize n v.files) (setup h) (λ _. update_env h (armed digest attempts)) w
        (setup-HasSize w s)
        (λ _ _.
          update_env-HasSize h mount (armed digest attempts) n (setup h w).1 (setup-HasSize w s))

  clear_trial-HasSize : (w : Machine) → HasSize n w.files → HasSize n (clear_trial h w).1.files
  unfolding clear_trial
  clear_trial-HasSize w s = update_env-HasSize h mount cleared n w s

  Operation-HasSize : {w v : Machine} → Operation h w v → HasSize n w.files → HasSize n v.files
  Operation-HasSize {w = w} (arming digest attempts) s = arm-HasSize digest attempts w s
  Operation-HasSize {w = w} clearing s = clear_trial-HasSize w s
  Operation-HasSize {w = w} setting_up s = setup-HasSize w s
  Operation-HasSize {w = w} (elsewhere v k) s = HasSize-Keeps n w.files v.files k s

  -- grubenv keeps its size through any sequence of operations, whether each of them succeeds or fails
  -- at any point, if `mount` leaves its content alone: GRUB can go on writing it in place.
  pub Operations-HasSize :
      {w v : Machine} → Operations h w v → HasSize n w.files → HasSize n v.files
  Operations-HasSize none_yet s = s
  Operations-HasSize (after before op) s = Operation-HasSize op (Operations-HasSize before s)
