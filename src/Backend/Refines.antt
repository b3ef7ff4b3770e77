-- ===== src/Backend/Refines.antt =====
-- A trial on GRUB as an abstract state, and how the code of bootguard/src/grub.rs, the snippet of
-- bootguard/src/grub-custom.cfg and the reading of bootguard/src/backend.rs implement it.
use agenticlinux.Prelude.{
  ℕ, zero, suc, ◌<◌, ◌^◌, ◌≡◌, refl, ◌∙◌, ap, sym, true, false, Option, none, some, ok,
  if◌then◌else◌, some_injective, ok_injective,
}
use agenticlinux.Prelude.Int.{ℤ, pos, negsuc}
use agenticlinux.Text.{Text, codes, equal}
use agenticlinux.Utf8.{Bytes}
use agenticlinux.Machine.Monad.{Machine, Files}
use agenticlinux.Machine.Fs.{lookup, next_fault}
use agenticlinux.Machine.Helpers.{Host}
use agenticlinux.Machine.Keeps.{Keeps, LeavesAlone}
use agenticlinux.Sys.{is_safe_id}
use agenticlinux.State.Lifecycle.{count_boot}
use agenticlinux.Grubenv.{Env, parse, get, get_i32}
use agenticlinux.Grubenv.RoundTrip.{IsWritable}
use agenticlinux.Grub.{grubenv, v_counter, v_target, arm, clear_trial}
use agenticlinux.Grub.Trial.{arm-Renewed}
use agenticlinux.Bootc.{Deployment}
use agenticlinux.Backend.{grub, trial}
use agenticlinux.Backend.ArmTrial.{read_env_found, trial_of_env}
use agenticlinux.Grub.Clear.{is_ours, clear_trial-Renewed}

-- No trial; a trial of a digest with attempts left; or one whose attempts are used up.
pub data TrialState : Type 0 where
  no_trial : TrialState
  on_trial : Text → ℕ → TrialState
  spent : Text → TrialState

-- What a boot counts.
abbrev pub boot : TrialState → TrialState
boot no_trial = no_trial
boot (on_trial digest (suc n)) = on_trial digest n
boot (on_trial digest zero) = spent digest
boot (spent digest) = spent digest

-- The counter and the target that are told.
abbrev pub told : TrialState → Option ℤ × Option Text
told no_trial = (none, none)
told (on_trial digest n) = (some (pos n), some digest)
told (spent digest) = (some (negsuc zero), some digest)

-- grubenv is a block that can be written again and that tells of the state.
pub record Holds (state : TrialState) (files : Files) : Type 0 where
  pub bytes : Bytes
  pub env : Env
  pub is_file : lookup grubenv files ≡ some bytes
  pub is_block : parse bytes ≡ ok env
  pub writable : IsWritable env
  pub counter : get_i32 env v_counter ≡ (told state).0
  pub target : get env v_target ≡ (told state).1

-- What GRUB does to the block at a boot: the snippet's counter is saved, nothing else changes.
pub record Counts (before after : Files) : Type 0 where
  pub old : Bytes
  pub old_env : Env
  pub was_file : lookup grubenv before ≡ some old
  pub was_block : parse old ≡ ok old_env
  pub new : Bytes
  pub new_env : Env
  pub is_file : lookup grubenv after ≡ some new
  pub is_block : parse new ≡ ok new_env
  pub writable : IsWritable new_env
  pub counter : get_i32 new_env v_counter ≡ (count_boot (get_i32 old_env v_counter)).1
  pub others : (k : Text) → equal v_counter k ≡ false → get new_env k ≡ get old_env k

-- A step of the machine, and of the state.
pub data Step (h : Host) (w : Machine) (s : TrialState) : Machine → TrialState → Type 0 where
  armed :
      (digest : Text) (n : ℕ)
      → is_safe_id digest ≡ true
      → n < 2 ^ 31
      → (arm h digest n w).0 ≡ ok tt
      → Step h w s (arm h digest n w).1 (on_trial digest n)
  cleared : (clear_trial h w).0 ≡ ok tt → Step h w s (clear_trial h w).1 no_trial
  counted : (v : Machine) → Counts w.files v.files → Step h w s v (boot s)
  elsewhere : (v : Machine) → Keeps grubenv w.files v.files → Step h w s v s

pub data Steps (h : Host) (w : Machine) (s : TrialState) : Machine → TrialState → Type 0 where
  start : Steps h w s w s
  and_then : {u v : Machine} {t r : TrialState} → Steps h w s u t → Step h u t v r → Steps h w s v r

boot-told :
    (s : TrialState)
    → ((count_boot (told s).0).1 ≡ (told (boot s)).0) × ((told s).1 ≡ (told (boot s)).1)
unfolding count_boot
boot-told no_trial = (refl, refl)
boot-told (on_trial digest zero) = (refl, refl)
boot-told (on_trial digest (suc n)) = (refl, refl)
boot-told (spent digest) = (refl, refl)

get_i32-none : (env : Env) (k : Text) → get env k ≡ none → get_i32 env k ≡ none
unfolding get_i32
get_i32-none env k e = rw (e, get_i32) refl

lacks_ours :
    (env env' : Env)
    → ((k : Text) → get env' k ≡ (if is_ours k then none else get env k))
    → (get env' v_counter ≡ none) × (get env' v_target ≡ none)
unfolding equal
lacks_ours env env' gone = (gone v_counter, gone v_target)

names_differ : equal v_counter v_target ≡ false
unfolding equal
names_differ = refl

module _ (h : Host) (mount : LeavesAlone h (codes "mount") grubenv) where
  armed-Holds :
      (s : TrialState) (w : Machine) (digest : Text) (n : ℕ)
      → Holds s w.files
      → is_safe_id digest ≡ true
      → n < 2 ^ 31
      → (arm h digest n w).0 ≡ ok tt
      → Holds (on_trial digest n) (arm h digest n w).1.files
  armed-Holds s w digest n b safe small e =
      let (new, env, now, _, block, writable, tells) =
        arm-Renewed h mount digest n w b.bytes b.env safe small b.is_file b.is_block b.writable e in
      record {
        bytes = new;
        env = env;
        is_file = now;
        is_block = block;
        writable = writable;
        counter = tells.counter;
        target = tells.target;
      }

  cleared-Holds :
      (s : TrialState) (w : Machine)
      → Holds s w.files
      → (clear_trial h w).0 ≡ ok tt
      → Holds no_trial (clear_trial h w).1.files
  cleared-Holds s w b e =
      let (new, env, now, _, block, writable, gone) =
        clear_trial-Renewed h mount w b.bytes b.env b.is_file b.is_block b.writable e in
      let (counter, target) = lacks_ours b.env env gone in
      record {
        bytes = new;
        env = env;
        is_file = now;
        is_block = block;
        writable = writable;
        counter = get_i32-none env v_counter counter;
        target = target;
      }

  counted-Holds :
      (s : TrialState) (before after : Files)
      → Holds s before
      → Counts before after
      → Holds (boot s) after
  counted-Holds s before after b c =
      let same = some_injective (sym b.is_file ∙ c.was_file) in
      let same_env = ok_injective (sym b.is_block ∙ (ap parse same ∙ c.was_block)) in
      let (counter, target) = boot-told s in
      record {
        bytes = c.new;
        env = c.new_env;
        is_file = c.is_file;
        is_block = c.is_block;
        writable = c.writable;
        counter =
            c.counter
            ∙ ap (λ x. (count_boot x).1) (ap (λ x. get_i32 x v_counter) (sym same_env) ∙ b.counter)
            ∙ counter;
        target =
            c.others v_target names_differ
            ∙ ap (λ x. get x v_target) (sym same_env)
            ∙ b.target
            ∙ target;
      }

  kept-Holds :
      (s : TrialState) (before after : Files)
      → Holds s before
      → Keeps grubenv before after
      → Holds s after
  kept-Holds s before after b k = record {
    bytes = b.bytes;
    env = b.env;
    is_file = k ∙ b.is_file;
    is_block = b.is_block;
    writable = b.writable;
    counter = b.counter;
    target = b.target;
  }

  Step-Holds :
      {w v : Machine} {s t : TrialState} → Step h w s v t → Holds s w.files → Holds t v.files
  Step-Holds {w = w} {s = s} (armed digest n safe small e) b =
      armed-Holds s w digest n b safe small e
  Step-Holds {w = w} {s = s} (cleared e) b = cleared-Holds s w b e
  Step-Holds {w = w} {s = s} (counted v c) b = counted-Holds s w.files v.files b c
  Step-Holds {w = w} {s = s} (elsewhere v k) b = kept-Holds s w.files v.files b k

  Steps-Holds :
      {w : Machine} {s : TrialState} {v : Machine} {t : TrialState}
      → Steps h w s v t
      → Holds s w.files
      → Holds t v.files
  Steps-Holds start b = b
  Steps-Holds (and_then before step) b = Step-Holds step (Steps-Holds before b)

  -- A trial on GRUB is what its abstract state says, through any sequence of arms and clears that
  -- succeed, of boots that GRUB counts, and of anything that leaves grubenv alone: from a block that
  -- can be written and tells of a state, a boot whose read of grubenv does not fail sees the counter
  -- and the target of the state that the same steps lead to, whichever deployment was booted, if
  -- `mount` leaves grubenv alone and the arms are of safe digests with less than 2^31 attempts.
  pub trial-told :
      {w v : Machine} {s t : TrialState}
      → Holds s w.files
      → Steps h w s v t
      → next_fault v.faults ≡ none
      → (booted : Deployment) → (trial grub booted v).0 ≡ ok (told t)
  trial-told {v = v} b steps calm booted =
      let now = Steps-Holds steps b in
      trial_of_env v booted now.env
        (read_env_found v now.bytes now.env calm now.is_file now.is_block)
      ∙ rw (now.counter, now.target) refl
