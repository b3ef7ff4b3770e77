-- ===== src/Preflight/KernelLaws.antt =====
-- A kernel image that `check_kernel` of bootguard/src/preflight.rs accepts.
use agenticlinux.Prelude.{
  ℕ, zero, suc, ◌+◌, ◌*◌, ◌≤◌, ◌<◌, ◌≡◌, ◌⊎◌, subst, inl, inr, max, true, [], ◌∷◌, Option, none,
  some, ok, arith, leb, ltb, leb→le, ltb→lt, get_elem?, if◌then◌else◌,
}
use agenticlinux.Prelude.Results.{ok_or, guard, >>=-eq-ok, ok_or_ok, guard_ok}
use agenticlinux.Text.{codes, starts_with}
use agenticlinux.Utf8.{Bytes}
use agenticlinux.Preflight.Kernel.{
  u16le, u32le, has_magic, is_bzimage, check_bzimage, check_zboot, check_pe, check_kernel,
  sections_end, setup_sectors, or_zero, eq_some,
}

-- The `j`-th section's data lies in the first `size` bytes of the file.
pub record SectionWithin (head : Bytes) (sec0 : ℕ) (size : ℕ) (j : ℕ) : Type 0 where
  pub raw : ℕ
  pub ptr : ℕ
  pub raw_at : u32le head (sec0 + j * 40 + 16) ≡ some raw
  pub ptr_at : u32le head (sec0 + j * 40 + 20) ≡ some ptr
  pub within : ptr + raw ≤ size

-- The setup sectors, the boot sector and the protected-mode code lie in the file.
pub record BzWithin (head : Bytes) (size : ℕ) : Type 0 where
  pub sectors : ℕ
  pub paragraphs : ℕ
  pub sectors_at : get_elem? head 0x1f1 ≡ some sectors
  pub paragraphs_at : u32le head 0x1f4 ≡ some paragraphs
  pub within : (setup_sectors sectors + 1) * 512 + paragraphs * 16 ≤ size

le_split : (i j : ℕ) → i ≤ j → (i ≡ j) ⊎ (i + 1 ≤ j)
le_split i j h = ground arith

at_or_after :
    (head : Bytes) (sec0 e i j : ℕ)
    → SectionWithin head sec0 e i
    → i ≤ j
    → (i + 1 ≤ j → SectionWithin head sec0 e j)
    → SectionWithin head sec0 e j
at_or_after head sec0 e i j here lo later = elim (le_split i j lo) [
  | inl same ↦ subst (SectionWithin head sec0 e) same here
  | inr behind ↦ later behind
]

sections_end-Within :
    (n : ℕ) (head : Bytes) (sec0 i end : ℕ) {end' : ℕ}
    → sections_end n head sec0 i end ≡ ok end'
    → (end ≤ end') × ((j : ℕ) → i ≤ j → j < i + n → SectionWithin head sec0 end' j)
unfolding sections_end
sections_end-Within zero head sec0 i end h = ground (arith, h)
sections_end-Within (suc n) head sec0 i end {end' = e} h =
    let (raw, r_at, h1) = >>=-eq-ok (ok_or (u32le head (sec0 + i * 40 + 16)) _) _ h in
    let (ptr, p_at, h2) = >>=-eq-ok (ok_or (u32le head (sec0 + i * 40 + 20)) _) _ h1 in
    let rest = sections_end-Within n head sec0 (i + 1) (max end (ptr + raw)) h2 in
    let here : SectionWithin head sec0 e i = record {
      raw = raw;
      ptr = ptr;
      raw_at = ok_or_ok _ _ r_at;
      ptr_at = ok_or_ok _ _ p_at;
      within = omega (arith, rest.0);
    } in
    (
      omega (arith, rest.0),
      λ j lo hi. at_or_after head sec0 e i j here lo (λ later. rest.1 j later (omega (arith, hi))),
    )

check_bzimage-Within :
    (head : Bytes) (size : ℕ) → check_bzimage head size ≡ ok tt → BzWithin head size
unfolding check_bzimage
check_bzimage-Within head size h =
    let (s, s_at, h1) = >>=-eq-ok (ok_or (get_elem? head 0x1f1) _) _ h in
    let (p, p_at, h2) = >>=-eq-ok (ok_or (u32le head 0x1f4) _) _ h1 in
    record {
      sectors = s;
      paragraphs = p;
      sectors_at = ok_or_ok _ _ s_at;
      paragraphs_at = ok_or_ok _ _ p_at;
      within = leb→le _ _ (guard_ok _ _ h2);
    }

-- A PE image's headers, its sections, an EFI zboot payload and a bzImage's parts.
pub record PeWithin (head : Bytes) (size : ℕ) : Type 0 where
  pub pe : ℕ
  pub sections : ℕ
  pub optional : ℕ
  pub pe_at : u32le head 0x3c ≡ some pe
  pub signed : has_magic head pe (b'P' ∷ b'E' ∷ 0 ∷ 0 ∷ []) ≡ true
  pub sections_at : u16le head (pe + 6) ≡ some sections
  pub some_section : 0 < sections
  pub pe32_plus : u16le head (pe + 24) ≡ some 0x20b
  pub optional_at : u16le head (pe + 20) ≡ some optional
  pub within : (j : ℕ) → j < sections → SectionWithin head (pe + 24 + optional) size j
  pub zboot :
      has_magic head 4 (codes "zimg") ≡ true
      → or_zero (u32le head 8) + or_zero (u32le head 12) ≤ size
  pub bz : is_bzimage head ≡ true → BzWithin head size

SectionWithin-mono :
    {head : Bytes} {sec0 e e' j : ℕ}
    → e ≤ e'
    → SectionWithin head sec0 e j
    → SectionWithin head sec0 e' j
SectionWithin-mono h s = record {
  raw = s.raw;
  ptr = s.ptr;
  raw_at = s.raw_at;
  ptr_at = s.ptr_at;
  within = omega (arith, s.within, h);
}

eq_some-true : (o : Option ℕ) (n : ℕ) → eq_some o n ≡ true → o ≡ some n
eq_some-true none n h = cc
eq_some-true (some m) n h = ground (arith, h)

check_zboot-Within :
    (head : Bytes) (size : ℕ)
    → check_zboot head size ≡ ok tt
    → has_magic head 4 (codes "zimg") ≡ true
    → or_zero (u32le head 8) + or_zero (u32le head 12) ≤ size
unfolding check_zboot
check_zboot-Within head size h m = leb→le _ _ (guard_ok _ _ (rw m at h))

check_bz-Within :
    (head : Bytes) (size : ℕ)
    → (if is_bzimage head then check_bzimage head size else ok tt) ≡ ok tt
    → is_bzimage head ≡ true
    → BzWithin head size
check_bz-Within head size h b = check_bzimage-Within head size (rw b at h)

check_pe-Within : (head : Bytes) (size : ℕ) → check_pe head size ≡ ok tt → PeWithin head size
unfolding check_pe
check_pe-Within head size h =
    let (pe, e1, h1) = >>=-eq-ok (ok_or (u32le head 0x3c) _) _ h in
    let (_, e2, h2) = >>=-eq-ok (guard (has_magic head pe (b'P' ∷ b'E' ∷ 0 ∷ 0 ∷ [])) _) _ h1 in
    let (n, e3, h3) = >>=-eq-ok (ok_or (u16le head (pe + 6)) _) _ h2 in
    let (_, e4, h4) = >>=-eq-ok (guard (ltb 0 n) _) _ h3 in
    let (_, e5, h5) = >>=-eq-ok (guard (eq_some (u16le head (pe + 24)) 0x20b) _) _ h4 in
    let (opt, e6, h6) = >>=-eq-ok (ok_or (u16le head (pe + 20)) _) _ h5 in
    let (end, e7, h7) = >>=-eq-ok (sections_end n head (pe + 24 + opt) 0 0) _ h6 in
    let (_, e8, h8) = >>=-eq-ok (guard (leb end size) _) _ h7 in
    let (_, e9, h9) = >>=-eq-ok (check_zboot head size) _ h8 in
    let ends = sections_end-Within n head (pe + 24 + opt) 0 0 e7 in
    let fits = leb→le end size (guard_ok _ _ e8) in
    record {
      pe = pe;
      sections = n;
      optional = opt;
      pe_at = ok_or_ok _ _ e1;
      signed = guard_ok _ _ e2;
      sections_at = ok_or_ok _ _ e3;
      some_section = ltb→lt 0 n (guard_ok _ _ e4);
      pe32_plus = eq_some-true _ _ (guard_ok _ _ e5);
      optional_at = ok_or_ok _ _ e6;
      within = λ j hi. SectionWithin-mono fits (ends.1 j (omega arith) (omega (arith, hi)));
      zboot = check_zboot-Within head size e9;
      bz = check_bz-Within head size h9;
    }

-- An image with a DOS header that passes the check has a PE32+ header with at least one section, and
-- the data of every section, the zboot payload and the parts of a bzImage, where the header tells of
-- them, lie within the size of the file.
pub check_kernel-PeWithin :
    (head : Bytes) (size : ℕ)
    → starts_with head (codes "MZ") ≡ true
    → check_kernel head size ≡ ok tt
    → PeWithin head size
unfolding check_kernel
check_kernel-PeWithin head size m h = check_pe-Within head size (rw m at h)
