-- ===== src/Grub/Arm.antt =====
-- A successful edit of grubenv by `update_env` of bootguard/src/grub.rs, read through the bytes of
-- the file.
use agenticlinux.Prelude.{ℕ, ◌≡◌, ◌∙◌, ap, sym, some, arith, Result, ok, length, some_injective}
use agenticlinux.Text.{codes}
use agenticlinux.Text.Laws.{equal_refl}
use agenticlinux.Utf8.{Bytes}
use agenticlinux.Machine.Monad.{Machine, Files, bind_ok, lift}
use agenticlinux.Machine.Fs.{lookup, read, write_all_at}
use agenticlinux.Machine.FileLaws.{write_all_at_done, lookup-insert, overwrite_all}
use agenticlinux.Machine.Helpers.{Host, acquire, release, with_boot_rw}
use agenticlinux.Grub.{checkpoint}
use agenticlinux.Machine.Keeps.{Keeps, LeavesAlone, acquire-Keeps, release-Keeps, freeze_thaw_files}
use agenticlinux.Grubenv.{Env, parse, serialize}
use agenticlinux.Grubenv.RoundTrip.{serialize_size}
use agenticlinux.Grubenv.File.{read_file, write_in_place, in_place_result_ok}
use agenticlinux.Grub.{grubenv, edit_env, update_env}
use agenticlinux.Grub.InPlace.{read_file_ok, read_file_files}

-- The file before and after an edit that succeeded.
pub record Edited (f : Env → Result Env) (fs fs' : Files) : Type 0 where
  pub old : Bytes
  pub env : Env
  pub env' : Env
  pub new : Bytes
  pub was : lookup grubenv fs ≡ some old
  pub parsed : parse old ≡ ok env
  pub edited : f env ≡ ok env'
  pub serialized : serialize env' (length old) ≡ ok new
  pub now : lookup grubenv fs' ≡ some new

Edited-Keeps :
    (f : Env → Result Env) (fs0 fs fs' fs'' : Files)
    → Keeps grubenv fs0 fs
    → Keeps grubenv fs' fs''
    → Edited f fs fs'
    → Edited f fs0 fs''
Edited-Keeps f fs0 fs fs' fs'' before behind d = record {
  old = d.old;
  env = d.env;
  env' = d.env';
  new = d.new;
  was = sym before ∙ d.was;
  parsed = d.parsed;
  edited = d.edited;
  serialized = d.serialized;
  now = behind ∙ d.now;
}

write_in_place_ok :
    (env : Env) (n : ℕ) (old : Bytes) (w : Machine)
    → lookup grubenv w.files ≡ some old
    → length old ≡ n
    → (write_in_place grubenv env n w).0 ≡ ok tt
    → (new : Bytes) × (serialize env n ≡ ok new)
      × (lookup grubenv (write_in_place grubenv env n w).1.files ≡ some new)
unfolding write_in_place
write_in_place_ok env n old w e l h =
    let (bytes, s, h1, m) = bind_ok (lift (serialize env n)) _ w h in
    let (old', e', fs) =
      write_all_at_done grubenv bytes w
        (in_place_result_ok grubenv (write_all_at grubenv bytes w).0 h1) in
    let same = some_injective (sym e' ∙ e) in
    let sizes = serialize_size env n bytes s in
    (
      bytes,
      s,
      ap (λ (v : Machine). lookup grubenv v.files) m
          ∙ ap (lookup grubenv) fs
          ∙ lookup-insert grubenv grubenv _ w.files
          ∙ rw equal_refl
              (ap some (overwrite_all bytes old' (omega (arith, sizes, l, ap length same)))),
    )

edit_env-Edited :
    (f : Env → Result Env) (w : Machine)
    → (edit_env f w).0 ≡ ok tt
    → Edited f w.files (edit_env f w).1.files
unfolding edit_env
edit_env-Edited f w h =
    let (r, read, h1, m1) = bind_ok (read_file grubenv) _ w h in
    let v = (read_file grubenv w).1 in
    let (old, was, parsed, size) = read_file_ok grubenv w r.0 r.1 read in
    let (env', edited, h2, m2) = bind_ok (lift (f r.0)) _ v h1 in
    let still = ap (lookup grubenv) (read_file_files grubenv w) ∙ was in
    let (new, serialized, now) = write_in_place_ok env' r.1 old v still size h2 in
    record {
      old = old;
      env = r.0;
      env' = env';
      new = new;
      was = was;
      parsed = parsed;
      edited = edited;
      serialized = rw size serialized;
      now = ap (λ (x : Machine). lookup grubenv x.files) (m1 ∙ m2) ∙ now;
    }

pub update_env-Edited :
    (h : Host)
    → LeavesAlone h (codes "mount") grubenv
    → (f : Env → Result Env) (w : Machine) → (update_env h f w).0 ≡ ok tt
    → Edited f w.files (update_env h f w).1.files
unfolding update_env
update_env-Edited h mount f w e =
    let held = with_boot_rw h (edit_env f) in
    let v = (acquire h w).1 in
    let v' = (edit_env f v).1 in
    let (_, b, _, m1) = bind_ok held (λ _. checkpoint) w e in
    let (ro, _, h2, m2) =
      bind_ok (acquire h) (λ was_ro x. ((edit_env f x).0, release h was_ro (edit_env f x).1)) w b in
    let after_thaw =
      ap (λ (x : Machine). lookup grubenv x.files) m1
      ∙ ap (lookup grubenv) (freeze_thaw_files (codes "/boot") (held w).1) in
    let after_release =
      ap (λ (x : Machine). lookup grubenv x.files) m2 ∙ release-Keeps h grubenv mount ro v' in
    Edited-Keeps f w.files v.files v'.files _ (acquire-Keeps h grubenv mount w)
      (after_thaw ∙ after_release) (edit_env-Edited f v h2)
