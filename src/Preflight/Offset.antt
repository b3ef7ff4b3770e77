-- ===== src/Preflight/Offset.antt =====
-- The end of the walk of `initramfs_payload_offset` of bootguard/src/preflight.rs.
use agenticlinux.Prelude.{
  ℕ, zero, suc, ◌+◌, ◌-◌, ◌^◌, ◌≤◌, ◌<◌, ◌≡◌, refl, min, Bool, true, false, not, ◌||◌, none, some,
  Result, ok, err, arith, leb, ltb, ◌==◌, leb→le, take,
}
use agenticlinux.Prelude.Results.{ok_or, guard, >>=-eq-ok, guard_ok}
use agenticlinux.Text.{Text, codes}
use agenticlinux.Utf8.{from_utf8_lossy}
use agenticlinux.Preflight.Cpio.{
  File, starts_archive, ends_in_nul, Step, trailer, entry, Walk, read_exact_at, cpio_has_checksum,
  header_fields, context, a4, verified, next_step, read_entry, after_entry, entries, skip_zeros,
  padded, after_archive, archive_at, archives, initramfs_payload_offset,
}

-- The walk has not run out of fuel, and an offset that it returns lies between the two.
unfoldable pub EndsWithin : ℕ → ℕ → Walk → Type 0
EndsWithin lo hi none = ⊥
EndsWithin lo hi (some (err _)) = Unit
EndsWithin lo hi (some (ok (o, _))) = (lo ≤ o) × (o ≤ hi)

abbrev offset_of : Step → ℕ
offset_of (trailer o) = o
offset_of (entry o _) = o

next_step_offset :
    (name : Text) (mode o len : ℕ) {s : Step} → next_step name mode o len ≡ ok s → offset_of s ≡ o
unfolding next_step
next_step_offset name mode o len {s = s} h = ground (arith, h)

a4_le : (x : ℕ) → x ≤ a4 x
unfolding a4
a4_le x = omega arith

read_entry_advances :
    (f : File) (len o : ℕ) {s : Step}
    → read_entry f len o ≡ ok s
    → (o + 110 ≤ offset_of s) × (offset_of s ≤ len)
unfolding read_entry
read_entry_advances f len o h =
    let (hd, _, h1) = >>=-eq-ok (context (codes "early cpio header") (read_exact_at f o 110)) _ h in
    let (crc, _, h2) = >>=-eq-ok (ok_or (cpio_has_checksum (take 6 hd)) _) _ h1 in
    let (e, _, h3) = >>=-eq-ok (ok_or (header_fields hd) _) _ h2 in
    let (_, _, h4) =
      >>=-eq-ok (guard (not (e.nsz == 0 || ltb 4096 e.nsz || ltb len (o + 110 + e.nsz))) _) _ h3 in
    let (raw, _, h5) =
      >>=-eq-ok (context (codes "early cpio name") (read_exact_at f (o + 110) e.nsz)) _ h4 in
    let (_, _, h6) = >>=-eq-ok (guard (ends_in_nul raw) _) _ h5 in
    let name = from_utf8_lossy (take (e.nsz - 1) raw) in
    let data_at = a4 (o + 110 + e.nsz) in
    let (_, fits, h7) = >>=-eq-ok (guard (leb (a4 (data_at + e.fsz)) len) _) _ h6 in
    let (_, _, h8) = >>=-eq-ok (verified crc f data_at e.fsz e.sum name) _ h7 in
    let at_end = next_step_offset name e.mode (a4 (data_at + e.fsz)) len h8 in
    omega (
      arith,
      at_end,
      leb→le _ _ (guard_ok _ _ fits),
      a4_le (o + 110 + e.nsz),
      a4_le (data_at + e.fsz),
    )

EndsWithin-lower : (lo lo' hi : ℕ) (r : Walk) → lo ≤ lo' → EndsWithin lo' hi r → EndsWithin lo hi r
unfolding EndsWithin
EndsWithin-lower lo lo' hi none h e = e
EndsWithin-lower lo lo' hi (some (err _)) h e = tt
EndsWithin-lower lo lo' hi (some (ok (o, _))) h e = (omega (arith, e.0), e.1)

skip_zeros_bounds : (n : ℕ) (f : File) (o : ℕ) → (o ≤ skip_zeros n f o) × (skip_zeros n f o ≤ o + n)
unfolding skip_zeros
skip_zeros_bounds zero f o = omega arith
skip_zeros_bounds (suc n) f o = ground (arith, skip_zeros_bounds n f (suc o))

padded_bounds : (f : File) (len o : ℕ) → o ≤ len → (o ≤ padded f len o) × (padded f len o ≤ len)
unfolding padded
padded_bounds f len o h = omega (arith, skip_zeros_bounds (min (o + 2 ^ 20) len - o) f o)

after_entry-EndsWithin :
    (more : ℕ → Bool → Walk) (lo hi : ℕ) (b : Bool) (r : Result Step)
    → ((s : Step) → r ≡ ok s → (lo + 110 ≤ offset_of s) × (offset_of s ≤ hi))
    → ((o : ℕ) (b' : Bool) → lo + 110 ≤ o → o ≤ hi → EndsWithin o hi (more o b'))
    → EndsWithin (lo + 110) hi (after_entry more b r)
unfolding EndsWithin after_entry
after_entry-EndsWithin more lo hi b (err e) adv rest = tt
after_entry-EndsWithin more lo hi b (ok (trailer o)) adv rest = omega (arith, adv (trailer o) refl)
after_entry-EndsWithin more lo hi b (ok (entry o i)) adv rest =
    let (up, down) = adv (entry o i) refl in
    EndsWithin-lower (lo + 110) o hi (more o (b || i)) up (rest o (b || i) up down)

entries-EndsWithin :
    (fuel : ℕ) (f : File) (len o : ℕ) (b : Bool)
    → o ≤ len
    → len < fuel + o
    → EndsWithin (o + 110) len (entries fuel f len o b)
unfolding entries EndsWithin
entries-EndsWithin zero f len o b h k = omega (arith, h, k)
entries-EndsWithin (suc fuel) f len o b h k =
    after_entry-EndsWithin (entries fuel f len) o len b (read_entry f len o)
      (λ s e. read_entry_advances f len o e)
      (λ o' b' up down.
        EndsWithin-lower o' (o' + 110) len (entries fuel f len o' b') (omega arith)
          (entries-EndsWithin fuel f len o' b' down (omega (arith, k, up))))

-- The result of one archive, if there is one: it ends behind where it began.
after_archive-EndsWithin :
    (more : ℕ → Bool → Walk) (lo hi : ℕ) (r : Walk)
    → EndsWithin lo hi r
    → ((o : ℕ) (b : Bool) → lo ≤ o → o ≤ hi → EndsWithin o hi (more o b))
    → EndsWithin lo hi (after_archive more r)
unfolding EndsWithin after_archive
after_archive-EndsWithin more lo hi none e rest = e
after_archive-EndsWithin more lo hi (some (err _)) e rest = tt
after_archive-EndsWithin more lo hi (some (ok (o, b))) e rest =
    EndsWithin-lower lo o hi (more o b) e.0 (rest o b e.0 e.1)

archive_at-EndsWithin :
    (more : ℕ → Bool → Walk) (f : File) (len : ℕ) (b : Bool) (p : ℕ) (starts : Bool)
    → p ≤ len
    → ((o : ℕ) (b' : Bool) → p + 110 ≤ o → o ≤ len → EndsWithin o len (more o b'))
    → EndsWithin p len (archive_at more f len b p starts)
unfolding archive_at EndsWithin
archive_at-EndsWithin more f len b p false h rest = omega (arith, h)
archive_at-EndsWithin more f len b p true h rest =
    let r = entries (suc len) f len p b in
    EndsWithin-lower p (p + 110) len (after_archive more r) (omega arith) (
      after_archive-EndsWithin more (p + 110) len r
        (entries-EndsWithin (suc len) f len p b h (omega arith)) rest)

archives-EndsWithin :
    (fuel : ℕ) (f : File) (len o : ℕ) (b : Bool)
    → o ≤ len
    → len < fuel + o
    → EndsWithin o len (archives fuel f len o b)
unfolding archives EndsWithin
archives-EndsWithin zero f len o b h k = omega (arith, h, k)
archives-EndsWithin (suc fuel) f len o b h k =
    let p = padded f len o in
    let (up, down) = padded_bounds f len o h in
    let starts = starts_archive (read_exact_at f p 6) in
    EndsWithin-lower o p len (archive_at (archives fuel f len) f len b p starts) up (
      archive_at-EndsWithin (archives fuel f len) f len b p starts down
        (λ o' b' up' down'. archives-EndsWithin fuel f len o' b' down' (omega (arith, k, up, up'))))

-- For every file, whatever its bytes and whichever reads fail, the walk over the leading archives
-- ends with an error or with an offset that is not behind the length it was given.
pub initramfs_payload_offset-EndsWithin :
    (f : File) (len : ℕ) → EndsWithin 0 len (initramfs_payload_offset f len)
unfolding initramfs_payload_offset
initramfs_payload_offset-EndsWithin f len =
    archives-EndsWithin (suc len) f len 0 false (omega arith) (omega arith)
