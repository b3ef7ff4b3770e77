-- ===== src/Tests/Images.antt =====
-- Kernel images, initramfs files and fstab texts, as in the tests of bootguard/src/preflight.rs.
use agenticlinux.Prelude.{
  Bool, All, ◌+◌, ◌↔◌, ◌++◌, ◌∷◌, [], ◌≡◌, refl, ◌%◌, ◌^◌, arith, ok, err, some, none, true,
  replicate, length, leb, if◌then◌else◌, take, drop,
}
use agenticlinux.Text.{Text, codes, equal, starts_with, trim}
use agenticlinux.Text.Split.{lines}
use agenticlinux.Utf8.{Bytes}
use agenticlinux.Preflight.Kernel.{check_kernel}
use agenticlinux.Preflight.KernelLaws.{PeWithin, check_kernel-PeWithin}
use agenticlinux.Preflight.Cpio.{File, byte_sum, initramfs_payload_offset}
use agenticlinux.Preflight.Sums.{total, byte_sum_lem}
use agenticlinux.Preflight.Offset.{EndsWithin, initramfs_payload_offset-EndsWithin}
use agenticlinux.Preflight.Specs.{check_fstab, needed_device, spec_to_dev}
use agenticlinux.Preflight.SpecLaws.{Exist, check_fstab_iff}
use agenticlinux.Preflight.Entries.{Needs}

-- A PE32+ image with one section of 0x100 bytes at 0x200.
abbrev pe_image : Bytes
pe_image =
    codes "MZ"
    ++ replicate 58 0
    ++ (0x80 ∷ 0 ∷ 0 ∷ 0 ∷ replicate 64 0)
    ++ (codes "PE" ++ (0 ∷ 0 ∷ 0 ∷ 0 ∷ 1 ∷ 0 ∷ replicate 12 0))
    ++ (0x10 ∷ 0 ∷ 0 ∷ 0 ∷ 0x0b ∷ 0x02 ∷ replicate 14 0)
    ++ (replicate 16 0 ++ (0 ∷ 1 ∷ 0 ∷ 0 ∷ 0 ∷ 2 ∷ 0 ∷ 0 ∷ replicate 16 0))

pe_starts : starts_with pe_image (codes "MZ") ≡ true
unfolding starts_with
pe_starts = refl

pe_passes : check_kernel pe_image 0x300 ≡ ok tt
unfolding check_kernel starts_with agenticlinux.Preflight.Kernel.check_pe
    agenticlinux.Preflight.Kernel.u32le agenticlinux.Preflight.Kernel.get_range
    agenticlinux.Preflight.Kernel.has_magic agenticlinux.Preflight.Kernel.from_le equal
    agenticlinux.Preflight.Kernel.u16le agenticlinux.Preflight.Kernel.sections_end
    agenticlinux.Preflight.Kernel.check_zboot agenticlinux.Preflight.Kernel.is_bzimage
pe_passes = refl

check_kernel-PeWithin_example : PeWithin pe_image 0x300
check_kernel-PeWithin_example = check_kernel-PeWithin pe_image 0x300 pe_starts pe_passes

-- One entry `init`, and the trailer.
abbrev header_of : Text → Text → Text → Text
header_of mode fsz nsz =
    codes "07070100000001"
    ++ (mode
        ++ (codes "00000000000000000000000100000000"
            ++ (fsz ++ (codes "00000000000000000000000000000000" ++ (nsz ++ codes "00000000")))))

abbrev archive : Bytes
archive =
    header_of (codes "000081ed") (codes "00000002") (codes "00000005")
    ++ (codes "init" ++ (0 ∷ 0 ∷ codes "hi" ++ (0 ∷ 0 ∷ [])))
    ++ (header_of (codes "00000000") (codes "00000000") (codes "0000000b")
        ++ (codes "TRAILER!!!" ++ (0 ∷ 0 ∷ 0 ∷ 0 ∷ [])))

abbrev archive_file : File
archive_file = record { content = archive ++ (0x1f ∷ 0x8b ∷ 8 ∷ 0 ∷ []); fault = λ _ _. none }

archive_walk :
    initramfs_payload_offset archive_file (length archive_file.content)
    ≡ some (ok (length archive, true))
unfolding initramfs_payload_offset agenticlinux.Preflight.Cpio.archives
    agenticlinux.Preflight.Cpio.archive_at agenticlinux.Preflight.Cpio.read_exact_at
    agenticlinux.Preflight.Cpio.padded agenticlinux.Preflight.Cpio.skip_zeros
    agenticlinux.Preflight.Cpio.cpio_has_checksum equal agenticlinux.Preflight.Cpio.after_archive
    agenticlinux.Preflight.Cpio.entries agenticlinux.Preflight.Cpio.after_entry
    agenticlinux.Preflight.Cpio.read_entry agenticlinux.Preflight.Cpio.header_fields
    agenticlinux.Preflight.Cpio.hex_at agenticlinux.Utf8.from_utf8
    agenticlinux.Preflight.Cpio.from_hex agenticlinux.Preflight.Cpio.hex_digits
    agenticlinux.Preflight.Cpio.a4 byte_sum agenticlinux.Preflight.Cpio.is_init
    agenticlinux.Preflight.Cpio.next_step agenticlinux.Preflight.Cpio.sum_from
    agenticlinux.Preflight.Cpio.trim_dot_slash agenticlinux.Preflight.Cpio.verified
    agenticlinux.Preflight.Cpio.wrapping_sum agenticlinux.Text.Decimal.digits_fuel
    agenticlinux.Text.Decimal.to_string agenticlinux.Text.any agenticlinux.Text.contains
    agenticlinux.Text.strip_prefix agenticlinux.Text.trim_start_matches agenticlinux.Utf8.decode
    agenticlinux.Utf8.encode agenticlinux.Utf8.encode_char agenticlinux.Utf8.from_utf8_lossy
    agenticlinux.Utf8.lead agenticlinux.Utf8.step
archive_walk = refl

initramfs_payload_offset-EndsWithin_example :
    EndsWithin 0 248 (initramfs_payload_offset archive_file 248)
initramfs_payload_offset-EndsWithin_example = initramfs_payload_offset-EndsWithin archive_file 248

abbrev full_file : File
full_file = record { content = 255 ∷ 1 ∷ 2 ∷ 3 ∷ []; fault = λ _ _. none }

byte_sum_lem_example : byte_sum full_file 1 3 ≡ (
    if leb (1 + 3) (length full_file.content)
    then ok (total (take 3 (drop 1 full_file.content)) % 2 ^ 32)
    else err (codes "failed to fill whole buffer"))
byte_sum_lem_example = byte_sum_lem full_file 1 3 (λ _ _. refl) (omega arith)

abbrev only_root : Text → Bool
only_root d = equal d (codes "/dev/disk/by-uuid/1")

abbrev fstab_text : Text
fstab_text = codes "# root\nUUID=1 / ext4 defaults 0 1\nUUID=2 /data ext4 defaults,nofail 0 2\n"

fstab_passes : check_fstab only_root fstab_text ≡ []
unfolding check_fstab agenticlinux.Preflight.Specs.check_lines lines
    agenticlinux.Preflight.Specs.missing needed_device trim starts_with
    agenticlinux.Preflight.Specs.needed_of agenticlinux.Preflight.Specs.fstab_fields
    agenticlinux.Text.Split.split_whitespace agenticlinux.Preflight.Specs.is_skipped
    agenticlinux.Text.any agenticlinux.Text.Split.split agenticlinux.Text.contains spec_to_dev
    agenticlinux.Preflight.Specs.tagged agenticlinux.Text.Split.split_once
    agenticlinux.Preflight.Specs.by_name agenticlinux.Preflight.Specs.device_path equal
    agenticlinux.Text.has_char agenticlinux.Text.is_whitespace agenticlinux.Text.trim_end_matches
    agenticlinux.Text.trim_matches agenticlinux.Text.trim_start_matches
fstab_passes = refl

check_fstab_iff_example :
    (check_fstab only_root fstab_text ≡ []) ↔ All (Exist only_root Needs) (lines fstab_text)
check_fstab_iff_example = check_fstab_iff only_root fstab_text
