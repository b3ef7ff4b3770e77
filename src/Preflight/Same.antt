-- ===== src/Preflight/Same.antt =====
-- The checks of bootguard/src/preflight.rs change no file and no directory.
use agenticlinux.Prelude.{
  ℕ, ◌≡◌, refl, ◌∙◌, Bool, true, false, List, Option, none, some, ok, err, length, arith,
}
use agenticlinux.Text.{Text}
use agenticlinux.Utf8.{Bytes}
use agenticlinux.Machine.Monad.{Machine}
use agenticlinux.Machine.Fs.{
  IoResult, done, not_found, failed, read, read_dir, read_to_string, exists,
}
use agenticlinux.Machine.Helpers.{Host, read_or_empty}
use agenticlinux.Preflight.Cpio.{File, Walk}
use agenticlinux.Preflight.Initramfs.{
  test_payload, check_payload, check_walk, check_size, check_opened, check_initramfs,
}

-- The same files and directories.
abbrev pub Same : Machine → Machine → Type 0
Same w v = (v.files ≡ w.files) × (v.dirs ≡ w.dirs)

pub Same-trans : (w u v : Machine) → Same w u → Same u v → Same w v
Same-trans w u v (f, d) (f', d') = (f' ∙ f, d' ∙ d)

pub read-Same : (p : Text) (w : Machine) → Same w (read p w).1
unfolding read
read-Same p w = (ground arith, ground arith)

pub read_to_string-Same : (p : Text) (w : Machine) → Same w (read_to_string p w).1
unfolding read_to_string
read_to_string-Same p w = read-Same p w

pub read_or_empty-Same : (p : Text) (w : Machine) → Same w (read_or_empty p w).1
unfolding read_or_empty
read_or_empty-Same p w = read_to_string-Same p w

pub read_dir-Same : (p : Text) (w : Machine) → Same w (read_dir p w).1
unfolding read_dir
read_dir-Same p w = (ground arith, ground arith)

pub exists-Same : (p : Text) (w v : Machine) → Same w v → exists p v ≡ exists p w
unfolding exists
exists-Same p w v (f, d) = rw (f, d) refl

test_payload-Same :
    (h : Host) (f : File) (off : ℕ) (o : Option (Text × List Text)) (w : Machine)
    → Same w (test_payload h f off o w).1
unfolding test_payload
test_payload-Same h f off none w = (refl, refl)
test_payload-Same h f off (some (prog, args)) w = (refl, refl)

check_payload-Same :
    (h : Host) (f : File) (len off : ℕ) (has_init over : Bool) (w : Machine)
    → Same w (check_payload h f len off has_init over w).1
unfolding check_payload
check_payload-Same h f len off has_init true w = (refl, refl)
check_payload-Same h f len off has_init false w = test_payload-Same h f off _ w

check_walk-Same :
    (h : Host) (f : File) (len : ℕ) (walk : Walk) (w : Machine)
    → Same w (check_walk h f len walk w).1
unfolding check_walk
check_walk-Same h f len none w = (refl, refl)
check_walk-Same h f len (some (err e)) w = (refl, refl)
check_walk-Same h f len (some (ok (off, has_init))) w = check_payload-Same h f len off has_init _ w

check_size-Same :
    (h : Host) (f : File) (len : ℕ) (small : Bool) (w : Machine)
    → Same w (check_size h f len small w).1
unfolding check_size
check_size-Same h f len true w = (refl, refl)
check_size-Same h f len false w = check_walk-Same h f len _ w

check_opened-Same :
    (h : Host) (path : Text) (r : IoResult Bytes) (w : Machine) → Same w (check_opened h path r w).1
unfolding check_opened
check_opened-Same h path not_found w = (refl, refl)
check_opened-Same h path (failed e) w = (refl, refl)
check_opened-Same h path (done b) w = check_size-Same h _ (length b) _ w

pub check_initramfs-Same :
    (h : Host) (path : Text) (w : Machine) → Same w (check_initramfs h path w).1
unfolding check_initramfs
check_initramfs-Same h path w =
    Same-trans w (read path w).1 (check_initramfs h path w).1 (read-Same path w)
      (check_opened-Same h path (read path w).0 (read path w).1)
