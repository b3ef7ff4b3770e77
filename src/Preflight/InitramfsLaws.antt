-- ===== src/Preflight/InitramfsLaws.antt =====
-- What an initramfs has that `check_initramfs` of bootguard/src/preflight.rs has nothing fatal to say
-- about.
use agenticlinux.Prelude.{
  ℕ, ◌≤◌, ◌<◌, ◌≡◌, refl, inl, inr, Bool, true, false, List, [], ◌∷◌, ◌++◌, Option, none, some, ok,
  err, leb, ltb, leb→le, length, drop, arith, Bool-cases,
}
use agenticlinux.Text.{Text}
use agenticlinux.Utf8.{Bytes}
use agenticlinux.Machine.Monad.{Machine}
use agenticlinux.Machine.Fs.{IoResult, done, not_found, failed, lookup, read}
use agenticlinux.Machine.FileLaws.{read_done}
use agenticlinux.Machine.Helpers.{Host, Reply, succeeded, exited, timed_out, cannot_run}
use agenticlinux.Preflight.Findings.{Finding, fatal_messages}
use agenticlinux.Preflight.Kernel.{detect_compression}
use agenticlinux.Preflight.Cpio.{File, Walk, initramfs_payload_offset}
use agenticlinux.Preflight.Initramfs.{
  only, head_at, after_test, test_payload, check_payload, check_walk, check_size, check_opened,
  check_initramfs,
}

-- Nothing fatal was found.
abbrev pub Clean : List Finding → Type 0
Clean fs = fatal_messages fs ≡ []

pub only-Clean : (m : Text) → ¬ Clean (only m)
unfolding fatal_messages
only-Clean m h = cc h

pub Clean-append : (fs gs : List Finding) → Clean (fs ++ gs) → Clean fs × Clean gs
unfolding fatal_messages
Clean-append [] gs h = (refl, h)
Clean-append (f ∷ fs) gs h = elim (Bool-cases f.is_fatal) [
  | inl bad ↦ absurd (cc (rw bad at h))
  | inr fine ↦ let (a, b) = Clean-append fs gs (rw fine at h) in (rw fine a, b)
]

-- The program found nothing wrong, or could not be started.
abbrev pub Passing : Reply → Type 0
Passing (succeeded _) = Unit
Passing (exited _) = ⊥
Passing timed_out = ⊥
Passing (cannot_run _) = Unit

-- An archive with an init and nothing behind it, or archives with a compressed payload behind them that
-- its program finds nothing wrong with.
pub data GoodImage (h : Host) (f : File) (w : Machine) : Type 0 where
  archives_only :
      (off : ℕ)
      → initramfs_payload_offset f (length f.content) ≡ some (ok (off, true))
      → length f.content ≤ off
      → GoodImage h f w
  tested :
      (off : ℕ) (has_init : Bool) (prog : Text) (args : List Text)
      → initramfs_payload_offset f (length f.content) ≡ some (ok (off, has_init))
      → off < length f.content
      → detect_compression (head_at f off (f.fault off 8)) ≡ some (prog, args)
      → Passing (h.filter prog args (drop off f.content) w)
      → GoodImage h f w

after_test-Passing : (prog : Text) (r : Reply) → Clean (after_test prog r) → Passing r
after_test-Passing prog (succeeded out) c = tt
after_test-Passing prog (exited st) c = absurd (only-Clean _ c)
after_test-Passing prog timed_out c = absurd (only-Clean _ c)
after_test-Passing prog (cannot_run e) c = tt

module _ (h : Host) (f : File) (w : Machine) where
  test_payload-Good :
      (off : ℕ) (has_init : Bool) (detected : Option (Text × List Text))
      → initramfs_payload_offset f (length f.content) ≡ some (ok (off, has_init))
      → off < length f.content
      → detect_compression (head_at f off (f.fault off 8)) ≡ detected
      → Clean (test_payload h f off detected w).0
      → GoodImage h f w
  unfolding test_payload
  test_payload-Good off has_init none walked inside found c = absurd (only-Clean _ c)
  test_payload-Good off has_init (some (prog, args)) walked inside found c =
      tested off has_init prog args walked inside found
        (after_test-Passing prog (h.filter prog args (drop off f.content) w) c)

  check_payload-Good :
      (off : ℕ) (has_init over : Bool)
      → initramfs_payload_offset f (length f.content) ≡ some (ok (off, has_init))
      → leb (length f.content) off ≡ over
      → Clean (check_payload h f (length f.content) off has_init over w).0
      → GoodImage h f w
  unfolding check_payload
  check_payload-Good off true true walked e c =
      archives_only off walked (leb→le (length f.content) off e)
  check_payload-Good off false true walked e c = absurd (only-Clean _ c)
  check_payload-Good off has_init false walked e c =
      test_payload-Good off has_init (detect_compression (head_at f off (f.fault off 8))) walked
        (ground (arith, e)) refl c

  check_walk-Good :
      (walk : Walk)
      → initramfs_payload_offset f (length f.content) ≡ walk
      → Clean (check_walk h f (length f.content) walk w).0
      → GoodImage h f w
  unfolding check_walk
  check_walk-Good none e c = absurd (only-Clean _ c)
  check_walk-Good (some (err m)) e c = absurd (only-Clean _ c)
  check_walk-Good (some (ok (off, has_init))) e c =
      check_payload-Good off has_init (leb (length f.content) off) e refl c

  check_size-Good :
      (small : Bool)
      → ltb (length f.content) 1024 ≡ small
      → Clean (check_size h f (length f.content) small w).0
      → (1024 ≤ length f.content) × GoodImage h f w
  unfolding check_size
  check_size-Good true e c = absurd (only-Clean _ c)
  check_size-Good false e c =
      (ground (arith, e), check_walk-Good (initramfs_payload_offset f (length f.content)) refl c)

check_opened-Good :
    (h : Host) (path : Text) (r : IoResult Bytes) (w : Machine)
    → Clean (check_opened h path r w).0
    → (b : Bytes) × (r ≡ done b)
      × (1024 ≤ length b)
      × GoodImage h (record { content = b; fault = h.read_fault path w }) w
unfolding check_opened
check_opened-Good h path (done b) w c =
    let f : File = record { content = b; fault = h.read_fault path w } in
    let (big, good) = check_size-Good h f w (ltb (length b) 1024) refl c in (b, refl, big, good)
check_opened-Good h path not_found w c = absurd (only-Clean _ c)
check_opened-Good h path (failed e) w c = absurd (only-Clean _ c)

-- An initramfs about which `check_initramfs` says nothing fatal has 1024 bytes or more, the walk over
-- its archives ends well, and either there is nothing behind them and an init in them, or there is a
-- payload of a known compression that its program finds nothing wrong with or cannot be started on.
pub check_initramfs-Good :
    (h : Host) (path : Text) (w : Machine)
    → Clean (check_initramfs h path w).0
    → (b : Bytes) × (v : Machine) × (lookup path w.files ≡ some b)
      × (1024 ≤ length b)
      × GoodImage h (record { content = b; fault = h.read_fault path v }) v
unfolding check_initramfs
check_initramfs-Good h path w c =
    let (b, r, big, good) = check_opened-Good h path (read path w).0 (read path w).1 c in
    (b, (read path w).1, read_done path w r, big, good)
