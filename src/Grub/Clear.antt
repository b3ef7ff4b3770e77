-- ===== src/Grub/Clear.antt =====
-- `clear_trial` of bootguard/src/grub.rs, and grubenv behind it.
use agenticlinux.Prelude.{
  ◌≡◌, ◌∙◌, ap, sym, Bool, ◌||◌, none, some, arith, ok, length, if◌then◌else◌, some_injective,
  ok_injective,
}
use agenticlinux.Text.{Text, codes, equal}
use agenticlinux.Utf8.{Bytes}
use agenticlinux.Machine.Monad.{Machine}
use agenticlinux.Machine.Fs.{lookup}
use agenticlinux.Machine.Helpers.{Host}
use agenticlinux.Machine.Keeps.{LeavesAlone}
use agenticlinux.Grubenv.{Env, parse, get, unset}
use agenticlinux.Grubenv.Lookup.{get-unset}
use agenticlinux.Grubenv.RoundTrip.{IsWritable, parse-serialize, serialize_size}
use agenticlinux.Grubenv.Writable.{unset-IsWritable}
use agenticlinux.Grub.{grubenv, v_counter, v_target, v_fallback, cleared, clear_trial}
use agenticlinux.Grub.Arm.{update_env-Edited}

-- The names of a trial's variables.
abbrev pub is_ours : Text → Bool
is_ours k = equal v_fallback k || equal v_target k || equal v_counter k

cleared-get :
    (env env' : Env) (k : Text)
    → cleared env ≡ ok env'
    → get env' k ≡ (if is_ours k then none else get env k)
unfolding cleared
cleared-get env env' k e =
    let e1 = unset env v_counter in
    let e2 = unset e1 v_target in
    rw (sym (ok_injective e)) (
      get-unset e2 v_fallback k
      ∙ ap (λ g. if equal v_fallback k then none else g) (get-unset e1 v_target k)
      ∙ ap (λ g. if equal v_fallback k then none else if equal v_target k then none else g)
          (get-unset env v_counter k)
      ∙ ground arith)

cleared-IsWritable : (env env' : Env) → IsWritable env → cleared env ≡ ok env' → IsWritable env'
unfolding cleared
cleared-IsWritable env env' h e = rw (sym (ok_injective e)) (
    unset-IsWritable (unset (unset env v_counter) v_target) v_fallback
      (unset-IsWritable (unset env v_counter) v_target (unset-IsWritable env v_counter h)))

-- `clear_trial` that succeeds writes a block that can be written again.
pub clear_trial-Renewed :
    (h : Host)
    → LeavesAlone h (codes "mount") grubenv
    → (w : Machine) (old : Bytes) (env : Env) → lookup grubenv w.files ≡ some old
    → parse old ≡ ok env
    → IsWritable env
    → (clear_trial h w).0 ≡ ok tt
    → (new : Bytes) × (env' : Env) × (lookup grubenv (clear_trial h w).1.files ≡ some new)
      × (length new ≡ length old)
      × (parse new ≡ ok env')
      × IsWritable env'
      × ((k : Text) → get env' k ≡ (if is_ours k then none else get env k))
unfolding clear_trial
clear_trial-Renewed h mount w old env was parsed writable e =
    let d = update_env-Edited h mount cleared w e in
    let same = some_injective (sym d.was ∙ was) in
    let same_env = ok_injective (sym d.parsed ∙ (ap parse same ∙ parsed)) in
    let edited = ap cleared (sym same_env) ∙ d.edited in
    (
      d.new,
      d.env',
      d.now,
      serialize_size d.env' (length d.old) d.new d.serialized ∙ ap length same,
      parse-serialize d.env' (length d.old) d.new (cleared-IsWritable env d.env' writable edited)
          d.serialized,
      cleared-IsWritable env d.env' writable edited,
      λ k. cleared-get env d.env' k edited,
    )

-- If `clear_trial` succeeds and grubenv was a block whose names could all be written, then grubenv is
-- a block of the same size, without the three variables of a trial and with every other variable as
-- before, if `mount` leaves its content alone.
pub clear_trial_lem :
    (h : Host)
    → LeavesAlone h (codes "mount") grubenv
    → (w : Machine) (old : Bytes) (env : Env) → lookup grubenv w.files ≡ some old
    → parse old ≡ ok env
    → IsWritable env
    → (clear_trial h w).0 ≡ ok tt
    → (new : Bytes) × (env' : Env) × (lookup grubenv (clear_trial h w).1.files ≡ some new)
      × (length new ≡ length old)
      × (parse new ≡ ok env')
      × ((k : Text) → get env' k ≡ (if is_ours k then none else get env k))
clear_trial_lem h mount w old env was parsed writable e =
    let (new, env', now, size, block, _, gone) =
      clear_trial-Renewed h mount w old env was parsed writable e in
    (new, env', now, size, block, gone)
