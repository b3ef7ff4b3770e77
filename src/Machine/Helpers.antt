-- ===== src/Machine/Helpers.antt =====
-- The helpers of bootguard/src/sys.rs over the machine: commands, /boot made writable, retries.
use agenticlinux.Prelude.{
  ℕ, zero, suc, Bool, true, false, List, [], ◌∷◌, ◌++◌, Option, none, some, Result, ok, err,
  if◌then◌else◌,
}
use Prim.Native.String.{String}
use agenticlinux.Text.{Text, codes, equal, any}
use agenticlinux.Text.Split.{lines, split}
use agenticlinux.Utf8.{Bytes, from_utf8_lossy}
use agenticlinux.Machine.Monad.{Machine, Files, Io, ◌>>=◌}
use agenticlinux.Machine.Fs.{
  IoResult, done, not_found, failed, no_such_file, Fs, read_to_string, remove_file, next_fault,
  tick,
}

-- How a command ended: its output, its exit status as text, the deadline, or why it did not start.
pub data Reply : Type 0 where
  succeeded : Bytes → Reply
  exited : Text → Reply
  timed_out : Reply
  cannot_run : Text → Reply

-- The system around the program: what each program replies, and the files and directories as it
-- leaves them; what a program replies that reads the given bytes as its standard input; and what the kernel tells of a
-- path: its mode, the target it has as a symbolic link (`some none`: a link that cannot be read), and
-- the error that a read at an offset of the open file meets.
pub record Host : Type 0 where
  pub reply : Text → List Text → Machine → Reply
  pub leaves : Text → List Text → Machine → Files
  pub leaves_dirs : Text → List Text → Machine → List Text
  pub filter : Text → List Text → Bytes → Machine → Reply
  pub mode : Text → Machine → Option ℕ
  pub link : Text → Machine → Option (Option Text)
  pub read_fault : Text → Machine → ℕ → ℕ → Option Text

-- `map_err(|e| format!(..))`
abbrev pub or_message {ℓ} : {A : Type ℓ} → IoResult A → (Text → Text) → Result A
or_message (done a) f = ok a
or_message not_found f = err (f no_such_file)
or_message (failed e) f = err (f e)

abbrev pub map_err {ℓ} : {A : Type ℓ} → Fs A → (Text → Text) → Io A
map_err m f w = let (r, w') = m w in (or_message r f, w')

abbrev pub message_of {ℓ} : {A : Type ℓ} → (Text → Text) → Result A → Result A
message_of f (ok a) = ok a
message_of f (err e) = err (f e)

-- `map_err` on a computation whose errors are messages already.
abbrev pub map_message {ℓ} : {A : Type ℓ} → (Text → Text) → Io A → Io A
map_message f m w = let (r, w') = m w in (message_of f r, w')

abbrev cannot_read : Text → Text → Text
cannot_read p e = codes "cannot read " ++ (p ++ (codes ": " ++ e))

abbrev pub empty_if_missing : Text → IoResult Text → Result Text
empty_if_missing p (done t) = ok t
empty_if_missing p not_found = ok []
empty_if_missing p (failed e) = err (cannot_read p e)

unfoldable pub read_or_empty : Text → Io Text
unfolding read_to_string
read_or_empty p w = let (r, w') = read_to_string p w in (empty_if_missing p r, w')

abbrev pub whether_removed : Text → IoResult (Unit {0}) → Result Bool
whether_removed p (done _) = ok true
whether_removed p not_found = ok false
whether_removed p (failed e) = err (codes "remove " ++ (p ++ (codes ": " ++ e)))

unfoldable pub remove_if_exists : Text → Io Bool
unfolding remove_file
remove_if_exists p w = let (r, w') = remove_file p w in (whether_removed p r, w')

-- Another attempt where the first has failed.
abbrev pub or_again {ℓ} : {A : Type ℓ} → Io A → Result A × Machine → Result A × Machine
or_again f (ok a, w) = (ok a, w)
or_again f (err e, w) = f w

-- Up to three attempts.
unfoldable pub retry {ℓ} : {A : Type ℓ} → Io A → Io A
retry f w = or_again f (or_again f (f w))

abbrev join_args : List Text → Text
join_args [] = []
join_args (a ∷ []) = a
join_args (a ∷ b ∷ rest) = a ++ (b' ' ∷ join_args (b ∷ rest))

abbrev pub command_line : Text → List Text → Text
command_line prog args = prog ++ (b' ' ∷ join_args args)

-- The machine after a command.
abbrev pub ran : Host → Text → List Text → Machine → Machine
ran h prog args w = record w {
  files = h.leaves prog args w;
  dirs = h.leaves_dirs prog args w;
  log = (prog, args) ∷ w.log;
}

abbrev output_of : Text → List Text → Reply → Result Text
output_of prog args (succeeded out) = ok (from_utf8_lossy out)
output_of prog args (exited st) = err (command_line prog args ++ (codes " exited with " ++ st))
output_of prog args timed_out = err (command_line prog args ++ codes " timed out after 30s")
output_of prog args (cannot_run e) = err (codes "spawn " ++ (prog ++ (codes ": " ++ e)))

abbrev is_success : Reply → Bool
is_success (succeeded _) = true
is_success (exited _) = false
is_success timed_out = false
is_success (cannot_run _) = false

-- `f.len() > 5 && f[4] == "/boot"`, and then whether the options have `ro`.
abbrev boot_options : List Text → Option Bool
boot_options (_ ∷ _ ∷ _ ∷ _ ∷ point ∷ opts ∷ _) =
    if equal point (codes "/boot")
    then some (any (λ o. equal o (codes "ro")) (split b',' opts))
    else none
boot_options _ = none

abbrev pub last_or : Bool → Option Bool → Bool
last_or d none = d
last_or d (some b) = b

-- The last line for /boot wins; with none it is not read-only.
unfoldable pub mounted_ro : Bool → List Text → Bool
mounted_ro d [] = d
mounted_ro d (l ∷ ls) = mounted_ro (last_or d (boot_options (split b' ' l))) ls

abbrev text_or_empty : IoResult Text → Text
text_or_empty (done t) = t
text_or_empty not_found = []
text_or_empty (failed _) = []

unfoldable pub boot_is_ro : Machine → Bool × Machine
unfolding read_to_string mounted_ro
boot_is_ro w =
    let (r, w') = read_to_string (codes "/proc/self/mountinfo") w in
    (mounted_ro false (lines (text_or_empty r)), w')

-- The `ioctl` and `open` of `freeze_thaw`: each may meet a fault.
abbrev pub call : Machine → Option Text × Machine
call w = (elim (next_fault w.faults) [ some f ↦ some f.message | none ↦ none ], tick w)

abbrev about : String → Text → Text → Text
about what path e = codes what ++ (b' ' ∷ (path ++ (codes ": " ++ e)))

abbrev pub or_retry : (Text → Io (Unit {0})) → Option Text → Io (Unit {0})
or_retry again none w = (ok tt, w)
or_retry again (some e) w = again e w

-- Up to `n` attempts to thaw; `last` is the error of the latest one.
unfoldable pub thaw : ℕ → Text → Text → Io (Unit {0})
thaw zero path last w = (err (about "FITHAW" path last), w)
thaw (suc n) path last w = let (e, w') = call w in or_retry (thaw n path) e w'

unfoldable pub after_freeze : Option Text → Text → Io (Unit {0})
unfolding thaw
after_freeze (some e) path w = (err (about "FIFREEZE" path e), w)
after_freeze none path w = thaw 6 path [] w

unfoldable pub after_open : Option Text → Text → Io (Unit {0})
unfolding after_freeze
after_open (some e) path w = (err (about "open" path e), w)
after_open none path w = let (e, w') = call w in after_freeze e path w'

unfoldable pub freeze_thaw : Text → Io (Unit {0})
unfolding after_open
freeze_thaw path w = let (e, w') = call w in after_open e path w'

module _ (h : Host) where
  -- The standard output of a command that succeeds in time.
  unfoldable pub capture : Text → List Text → Io Text
  capture prog args w = (output_of prog args (h.reply prog args w), ran h prog args w)

  -- Did the command succeed in time?
  unfoldable pub status_ok : Text → List Text → Machine → Bool × Machine
  status_ok prog args w = (is_success (h.reply prog args w), ran h prog args w)

  unfoldable pub systemctl : List Text → Machine → Bool × Machine
  unfolding status_ok
  systemctl args w = status_ok (codes "systemctl") args w

  abbrev remount : String → Machine → Bool × Machine
  remount options w = status_ok (codes "mount") (codes "-o" ∷ codes options ∷ codes "/boot" ∷ []) w

  unfoldable pub remounted : Bool × Machine → Result Bool × Machine
  remounted (true, w) = (ok true, w)
  remounted (false, w) = (err (codes "cannot remount /boot read-write"), w)

  unfoldable pub acquire_at : Bool × Machine → Result Bool × Machine
  unfolding remounted status_ok
  acquire_at (true, w) = remounted (remount "remount,rw" w)
  acquire_at (false, w) = (ok false, w)

  -- `BootRw::acquire`: whether /boot was read-only.
  unfoldable pub acquire : Io Bool
  unfolding acquire_at boot_is_ro
  acquire w = acquire_at (boot_is_ro w)

  -- `drop` of `BootRw`: read-only again, if it was.
  unfoldable pub release : Bool → Machine → Machine
  unfolding status_ok
  release true w = (remount "remount,bind,ro" w).1
  release false w = w

  -- A block that holds a `BootRw`, which is dropped at its end, however it ends.
  abbrev pub with_boot_rw {ℓ} : {A : Type ℓ} → Io A → Io A
  with_boot_rw f = acquire >>= λ was_ro w. let (r, w') = f w in (r, release was_ro w')
