-- ===== src/Grub/InPlace.antt =====
-- The size of grubenv under `update_env` of bootguard/src/grub.rs: GRUB reads the file through its
-- block list.
use agenticlinux.Prelude.{ℕ, ◌≡◌, ◌∙◌, ap, sym, subst, Bool, some, arith, Result, ok, length}
use agenticlinux.Text.{Text, codes}
use agenticlinux.Utf8.{Bytes}
use agenticlinux.Machine.Monad.{Machine, Files, bind_ok, bind_holds, lift}
use agenticlinux.Machine.Fs.{lookup, read, write_all_at}
use agenticlinux.Machine.FileLaws.{read_files, read_done, write_all_at-length, or_message_ok}
use agenticlinux.Machine.Helpers.{Host, map_err, acquire, release, with_boot_rw}
use agenticlinux.Machine.Keeps.{Keeps, LeavesAlone, acquire-Keeps, release-Keeps, freeze_thaw_files}
use agenticlinux.Grubenv.{Env, parse, serialize}
use agenticlinux.Grubenv.RoundTrip.{serialize_size}
use agenticlinux.Grubenv.File.{read_file, write_in_place}
use agenticlinux.Grub.{grubenv, edit_env, update_env}

-- grubenv is a file of this many bytes.
abbrev pub HasSize : ℕ → Files → Type 0
HasSize n fs = (b : Bytes) × (lookup grubenv fs ≡ some b) × (length b ≡ n)

pub HasSize-Keeps : (n : ℕ) (fs fs' : Files) → Keeps grubenv fs fs' → HasSize n fs → HasSize n fs'
HasSize-Keeps n fs fs' k (b, e, l) = (b, k ∙ e, l)

-- What `read_file` returned, and that the files are as before.
pub read_file_ok :
    (path : Text) (w : Machine) (env : Env) (size : ℕ)
    → (read_file path w).0 ≡ ok (env, size)
    → (b : Bytes) × (lookup path w.files ≡ some b) × (parse b ≡ ok env) × (length b ≡ size)
unfolding read_file
read_file_ok path w env size h =
    let (bytes, r, h1, _) = bind_ok (map_err (read path) _) _ w h in
    let (env', p, h2, _) = bind_ok (lift (parse bytes)) _ _ h1 in
    (
      bytes,
      read_done path w (or_message_ok (read path w).0 _ r),
      ground (arith, p, h2),
      ground (arith, h2),
    )

pub read_file_files : (path : Text) (w : Machine) → (read_file path w).1.files ≡ w.files
unfolding read_file
read_file_files path w =
    bind_holds (λ v. v.files ≡ w.files) (map_err (read path) _) _ w (read_files path w)
      (λ bytes _.
        bind_holds (λ v. v.files ≡ w.files) (lift (parse bytes)) _ _ (read_files path w)
          (λ env _. read_files path w))

sized :
    (fs : Files) (b : Bytes) (n : ℕ)
    → length b ≡ n
    → (now : Bytes) × (lookup grubenv fs ≡ some now) × (length now ≡ length b)
    → HasSize n fs
sized fs b n l (now, e, k) = (now, e, k ∙ l)

write_in_place-HasSize :
    (env : Env) (n : ℕ) (w : Machine)
    → HasSize n w.files
    → HasSize n (write_in_place grubenv env n w).1.files
unfolding write_in_place
write_in_place-HasSize env n w (b, e, l) =
    bind_holds (λ v. HasSize n v.files) (lift (serialize env n)) _ w (b, e, l)
      (λ bytes s.
        sized (write_all_at grubenv bytes w).1.files b n l (
          write_all_at-length grubenv bytes b w e (omega (arith, l, serialize_size env n bytes s))))

-- The size that `read_file` returns is the one that the file has.
size_read :
    (w : Machine) (env : Env) (n size : ℕ)
    → HasSize n w.files
    → (read_file grubenv w).0 ≡ ok (env, size)
    → size ≡ n
size_read w env n size (b, e, l) r =
    let (b', e', _, l') = read_file_ok grubenv w env size r in ground (arith, e, e', l, l')

edit_env-HasSize :
    (f : Env → Result Env) (n : ℕ) (w : Machine)
    → HasSize n w.files
    → HasSize n (edit_env f w).1.files
unfolding edit_env
edit_env-HasSize f n w s =
    let read_size =
      HasSize-Keeps n w.files (read_file grubenv w).1.files
        (ap (lookup grubenv) (read_file_files grubenv w)) s in
    bind_holds (λ v. HasSize n v.files) (read_file grubenv) _ w read_size
      (λ (env, size) r.
        bind_holds (λ v. HasSize n v.files) (lift (f env)) _ _ read_size
          (λ env' _.
            subst (λ k. HasSize n (write_in_place grubenv env' k (read_file grubenv w).1).1.files)
              (sym (size_read w env n size s r))
              (write_in_place-HasSize env' n (read_file grubenv w).1 read_size)))

-- However an edit of grubenv ends, whether it fails before, in or after the write, the file has the
-- size that it had, if `mount` leaves its content alone.
pub update_env-HasSize :
    (h : Host)
    → LeavesAlone h (codes "mount") grubenv
    → (f : Env → Result Env) (n : ℕ) (w : Machine) → HasSize n w.files
    → HasSize n (update_env h f w).1.files
unfolding update_env
update_env-HasSize h mount f n w s =
    let opened =
      HasSize-Keeps n w.files (acquire h w).1.files (acquire-Keeps h grubenv mount w) s in
    let edited = edit_env-HasSize f n (acquire h w).1 opened in
    let closed = λ (ro : Bool).
      HasSize-Keeps n (edit_env f (acquire h w).1).1.files
        (release h ro (edit_env f (acquire h w).1).1).files
        (release-Keeps h grubenv mount ro (edit_env f (acquire h w).1).1) edited in
    let held = bind_holds (λ v. HasSize n v.files) (acquire h) _ w opened (λ ro _. closed ro) in
    bind_holds (λ v. HasSize n v.files) (with_boot_rw h (edit_env f)) _ w held
      (λ _ _.
        HasSize-Keeps n (with_boot_rw h (edit_env f) w).1.files _
          (ap (lookup grubenv)
            (freeze_thaw_files (codes "/boot") (with_boot_rw h (edit_env f) w).1))
          held)
