-- ===== src/Preflight/Initramfs.antt =====
-- `check_initramfs` and `read_head` of bootguard/src/preflight.rs.
use agenticlinux.Prelude.{
  ℕ, min, Bool, true, false, List, [], ◌∷◌, ◌++◌, Option, none, some, Result, ok, err, ltb, leb,
  if◌then◌else◌, take, drop, length, replicate,
}
use agenticlinux.Text.{Text, codes}
use agenticlinux.Text.Decimal.{to_string}
use agenticlinux.Utf8.{Bytes}
use agenticlinux.Machine.Monad.{Machine}
use agenticlinux.Machine.Fs.{IoResult, done, not_found, failed, no_such_file, read}
use agenticlinux.Machine.Helpers.{Host, Reply, succeeded, exited, timed_out, cannot_run}
use agenticlinux.Preflight.Findings.{Finding, fatal, note}
use agenticlinux.Preflight.Kernel.{detect_compression}
use agenticlinux.Preflight.Cpio.{File, Walk, initramfs_payload_offset}

-- Checks look at the machine and find something; the commands that they run stay in the log.
abbrev pub Checks : Type 0
Checks = Machine → List Finding × Machine

abbrev pub only : Text → List Finding
only m = fatal m ∷ []

-- `let mut head = [0; 8]; let _ = f.read_exact_at(&mut head, off)`: what could be read.
abbrev pub head_at : File → ℕ → Option Text → Bytes
head_at f off (some e) = replicate 8 0
head_at f off none = take 8 (take 8 (drop off f.content) ++ replicate 8 0)

abbrev pub after_test : Text → Reply → List Finding
after_test prog (succeeded out) = []
after_test prog (exited st) = only (
    codes "initramfs ("
    ++ (prog ++ codes ") failed its integrity test; it is corrupt or truncated"))
after_test prog timed_out = only (codes "initramfs integrity test timed out")
after_test prog (cannot_run e) =
    note (codes "cannot verify initramfs with `" ++ (prog ++ (codes "`: " ++ e))) ∷ []

module _ (h : Host) where
  -- The payload from its offset on, through the program that tests it.
  unfoldable pub test_payload : File → ℕ → Option (Text × List Text) → Checks
  test_payload f off none w = (only (codes "initramfs payload has no known compression magic"), w)
  test_payload f off (some (prog, args)) w = (
    after_test prog (h.filter prog args (drop off f.content) w),
    record w { log = (prog, args) ∷ w.log },
  )

  -- Behind the archives. With nothing behind them it is a plain initramfs.
  unfoldable pub check_payload : File → ℕ → ℕ → Bool → Bool → Checks
  check_payload f len off has_init true w = (
    if has_init
        then []
        else only (codes "initramfs holds only early archives and no executable init"),
    w,
  )
  check_payload f len off has_init false w =
      test_payload f off (detect_compression (head_at f off (f.fault off 8))) w

  -- The walk over the archives has fuel enough, so its first case does not occur.
  unfoldable pub check_walk : File → ℕ → Walk → Checks
  check_walk f len none w = (only (codes "initramfs early cpio is damaged: "), w)
  check_walk f len (some (err e)) w = (only (codes "initramfs early cpio is damaged: " ++ e), w)
  check_walk f len (some (ok (off, has_init))) w = check_payload f len off has_init (leb len off) w

  unfoldable pub check_size : File → ℕ → Bool → Checks
  check_size f len true w =
      (only (codes "initramfs is only " ++ (to_string len ++ codes " bytes")), w)
  check_size f len false w = check_walk f len (initramfs_payload_offset f len) w

  abbrev cannot_open : Text → Text → List Finding
  cannot_open path e = only (codes "cannot open " ++ (path ++ (codes ": " ++ e)))

  unfoldable pub check_opened : Text → IoResult Bytes → Checks
  check_opened path not_found w = (cannot_open path no_such_file, w)
  check_opened path (failed e) w = (cannot_open path e, w)
  check_opened path (done b) w =
      let f : File = record { content = b; fault = h.read_fault path w } in
      check_size f (length b) (ltb (length b) 1024) w

  unfoldable pub check_initramfs : Text → Checks
  unfolding check_opened
  check_initramfs path w = let (r, w') = read path w in check_opened path r w'

  abbrev of_file : Text → ℕ → Bytes → Option Text → Result (Bytes × ℕ)
  of_file path n b (some e) = err (codes "read " ++ (path ++ (codes ": " ++ e)))
  of_file path n b none = ok (take n b, length b)

  abbrev cannot_open_head : Text → Text → Result (Bytes × ℕ)
  cannot_open_head path e = err (codes "open " ++ (path ++ (codes ": " ++ e)))

  unfoldable pub head_of : Text → ℕ → IoResult Bytes → Machine → Result (Bytes × ℕ)
  head_of path n not_found w = cannot_open_head path no_such_file
  head_of path n (failed e) w = cannot_open_head path e
  head_of path n (done b) w = of_file path n b (h.read_fault path w 0 (min n (length b)))

  -- The first `n` bytes of a file, or all of them, and its size.
  unfoldable pub read_head : Text → ℕ → Machine → Result (Bytes × ℕ) × Machine
  unfolding head_of
  read_head path n w = let (r, w') = read path w in (head_of path n r w', w')
