-- ===== src/Machine/FileLaws.antt =====
-- The files as a map, and what an operation that succeeded did to them.
use agenticlinux.Prelude.{
  ◌≤◌, ◌≡◌, refl, inl, inr, [], ◌∷◌, Option, none, some, arith, Result, ok, err, if◌then◌else◌,
  length, length-append, length-drop, length-take, drop_all, drop, take, Option-cases, Bool-cases,
  false,
}
use mathlib.Core.List.{append-nil}
use agenticlinux.Text.{Text, equal}
use agenticlinux.Text.Laws.{equal_iff, equal_refl}
use agenticlinux.Utf8.{Bytes, from_utf8}
use agenticlinux.Machine.Monad.{Machine, Files}
use agenticlinux.Machine.Helpers.{or_message, message_of}
use agenticlinux.Machine.Fs.{
  IoResult, done, not_found, failed, lookup, insert, erase, next_fault, overwrite, read, if_utf8,
  as_text, read_to_string, write, write_all_at,
}

pub lookup-insert :
    (q p : Text) (b : Bytes) (fs : Files)
    → lookup q (insert p b fs) ≡ (if equal p q then some b else lookup q fs)
unfolding lookup insert
lookup-insert q p b [] = refl
lookup-insert q p b ((r, c) ∷ fs) =
    ground (arith, equal_iff r p, equal_iff r q, equal_iff p q, lookup-insert q p b fs)

pub lookup-erase :
    (q p : Text) (fs : Files) → lookup q (erase p fs) ≡ (if equal p q then none else lookup q fs)
unfolding lookup erase
lookup-erase q p [] = ground arith
lookup-erase q p ((r, c) ∷ fs) =
    ground (arith, equal_iff r p, equal_iff r q, equal_iff p q, lookup-erase q p fs)

pub length-overwrite :
    (new old : Bytes) → length new ≤ length old → length (overwrite new old) ≡ length old
unfolding overwrite
length-overwrite new old h =
    omega (arith, length-append new (drop (length new) old), length-drop (length new) old)

pub overwrite_all : (new old : Bytes) → length new ≡ length old → overwrite new old ≡ new
unfolding overwrite
overwrite_all new old e = rw (drop_all (length new) old (omega arith), append-nil) refl

-- Reading changes no file, whatever comes of it.
pub read_files : (p : Text) (w : Machine) → (read p w).1.files ≡ w.files
unfolding read
read_files p w = ground arith

pub read_done :
    (p : Text) (w : Machine) {b : Bytes} → (read p w).0 ≡ done b → lookup p w.files ≡ some b
unfolding read
read_done p w h = ground arith

pub read_to_string_files : (p : Text) (w : Machine) → (read_to_string p w).1.files ≡ w.files
unfolding read_to_string
read_to_string_files p w = read_files p w

pub write_all_at_done :
    (p : Text) (b : Bytes) (w : Machine)
    → (write_all_at p b w).0 ≡ done tt
    → (old : Bytes) × (lookup p w.files ≡ some old)
      × ((write_all_at p b w).1.files ≡ insert p (overwrite b old) w.files)
unfolding write_all_at
write_all_at_done p b w h = elim (Option-cases (lookup p w.files)) [
  | inl e ↦ ground (arith, h, e)
  | inr (old, e) ↦ (old, e, ground (arith, h, e))
]

pub or_message_ok {ℓ} :
    {A : Type ℓ} (r : IoResult A) (f : Text → Text) {a : A} → or_message r f ≡ ok a → r ≡ done a
or_message_ok (done a) f h = ground (arith, h)
or_message_ok not_found f h = cc
or_message_ok (failed e) f h = cc

pub message_of_ok {ℓ} :
    {A : Type ℓ} (r : Result A) (f : Text → Text) {a : A} → message_of f r ≡ ok a → r ≡ ok a
message_of_ok (ok a) f h = h
message_of_ok (err e) f h = cc

-- However an in-place write ends, the file keeps its length, if the bytes are not more than it has.
pub write_all_at-length :
    (p : Text) (b old : Bytes) (w : Machine)
    → lookup p w.files ≡ some old
    → length b ≤ length old
    → (now : Bytes) × (lookup p (write_all_at p b w).1.files ≡ some now) × (length now ≡ length old)
unfolding write_all_at
write_all_at-length p b old w e h = elim (Option-cases (next_fault w.faults)) [
  | inl n ↦ (overwrite b old, rw (n, e, lookup-insert, equal_refl) refl, length-overwrite b old h)
  | inr (f, n) ↦ (
    overwrite (take f.written b) old,
    rw (n, e, lookup-insert, equal_refl) refl,
    length-overwrite (take f.written b) old (omega (arith, length-take f.written b, h)),
  )
]

pub write_done :
    (q : Text) (b : Bytes) (w : Machine)
    → (write q b w).0 ≡ done tt
    → lookup q (write q b w).1.files ≡ some b
unfolding write
write_done q b w h = elim (Option-cases (next_fault w.faults)) [
  | inl n ↦ rw (n, lookup-insert, equal_refl) refl
  | inr (f, n) ↦ cc (rw n at h)
]

-- A write changes no other file, however it ends.
pub lookup-write :
    (q p : Text) (b : Bytes) (w : Machine)
    → equal p q ≡ false
    → lookup q (write p b w).1.files ≡ lookup q w.files
unfolding write
lookup-write q p b w other = elim (Option-cases (next_fault w.faults)) [
  | inl n ↦ rw (n, lookup-insert, other) refl
  | inr (f, n) ↦ elim (Bool-cases f.opens) [
    | inl e ↦ rw (n, e, lookup-insert, other) refl
    | inr e ↦ rw (n, e) refl
  ]
]

if_utf8_done : (o : Option Text) {t : Text} → if_utf8 o ≡ done t → o ≡ some t
if_utf8_done (some s) e = cc e
if_utf8_done none e = cc

as_text_done :
    (r : IoResult Bytes) {t : Text}
    → as_text r ≡ done t
    → (b : Bytes) × (r ≡ done b) × (from_utf8 b ≡ some t)
as_text_done (done b) e = (b, refl, if_utf8_done (from_utf8 b) e)
as_text_done not_found e = cc
as_text_done (failed m) e = cc

pub read_to_string_done :
    (p : Text) (w : Machine) {t : Text}
    → (read_to_string p w).0 ≡ done t
    → (b : Bytes) × (lookup p w.files ≡ some b) × (from_utf8 b ≡ some t)
unfolding read_to_string
read_to_string_done p w e = let (b, r, u) = as_text_done (read p w).0 e in (b, read_done p w r, u)
