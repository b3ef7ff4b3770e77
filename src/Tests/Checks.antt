-- ===== src/Tests/Checks.antt =====
-- Preflight on a small tree: an arm64 kernel, an initramfs in gzip, an fstab, and a link in the way of
-- the tool.
use agenticlinux.Prelude.{
  ◌∷◌, [], ◌++◌, ◌≡◌, ◌≤◌, refl, some, none, List, if◌then◌else◌, replicate, length,
}
use agenticlinux.Text.{Text, codes, equal}
use agenticlinux.Utf8.{Bytes, encode}
use agenticlinux.Tests.Hosts.{quiet_host}
use agenticlinux.Tests.Boots.{system}
use agenticlinux.Machine.Monad.{Machine}
use agenticlinux.Machine.Fs.{lookup}
use agenticlinux.Machine.Helpers.{Host}
use agenticlinux.Bootc.Commands.{System}
use agenticlinux.Preflight.Cpio.{File}
use agenticlinux.Preflight.Initramfs.{check_initramfs}
use agenticlinux.Preflight.InitramfsLaws.{Clean, GoodImage, check_initramfs-Good}
use agenticlinux.Preflight.Run.{run}
use agenticlinux.Preflight.RunLaws.{Passes, run-Passes}
use agenticlinux.Preflight.Resolve.{resolve_beneath, join_done}
use agenticlinux.Preflight.ResolveLaws.{Plain, resolve_beneath-Plain}

-- /d/bin leads to /d/usr/bin.
abbrev linked_host : Host
linked_host = record quiet_host {
  link = λ p w. if equal p (codes "/d/bin") then some (some (codes "../usr/./bin")) else none;
}

abbrev linked_system : System
linked_system = record system { host = linked_host }

abbrev kernel : Bytes
kernel = replicate 56 1 ++ (codes "ARMd" ++ replicate 4 0)

abbrev gzip : Bytes
gzip = 0x1f ∷ 0x8b ∷ replicate 1022 1

abbrev initramfs : Text
initramfs = codes "/d/usr/lib/modules/6.1/initramfs.img"

abbrev tree : Machine
tree = record {
  files =
      (codes "/d/usr/lib/modules/6.1/vmlinuz", kernel)
      ∷ (initramfs, gzip)
      ∷ (codes "/d/etc/fstab", encode (codes "tmpfs /tmp tmpfs defaults\n"))
      ∷ [];
  dirs = codes "/d" ∷ codes "/d/usr/lib/modules" ∷ codes "/d/usr/lib/modules/6.1" ∷ [];
  faults = [];
  log = [];
}

resolved :
    resolve_beneath linked_host (codes "/d") (codes "/bin/../bin/x") tree
    ≡ some (codes "/d/usr/bin/x")
unfolding resolve_beneath agenticlinux.Preflight.Resolve.resolve_from
    agenticlinux.Preflight.Resolve.walk agenticlinux.Preflight.Resolve.names
    agenticlinux.Text.Split.split agenticlinux.Preflight.Resolve.is_no_name
    agenticlinux.Preflight.Resolve.at_name agenticlinux.Preflight.Resolve.below
    agenticlinux.Preflight.Resolve.followed agenticlinux.Preflight.Resolve.link_base join_done
resolved = refl

resolve_beneath-Plain_example :
    (done : List Text) × (codes "/d/usr/bin/x" ≡ join_done (codes "/d") done)
    × Plain (λ p. linked_host.link p tree) (codes "/d") done
resolve_beneath-Plain_example =
    resolve_beneath-Plain linked_host (codes "/d") (codes "/bin/../bin/x") tree resolved

good_initramfs : Clean (check_initramfs linked_host initramfs tree).0
unfolding agenticlinux.Preflight.Findings.fatal_messages check_initramfs
    agenticlinux.Machine.Fs.read equal agenticlinux.Preflight.Initramfs.check_opened
    agenticlinux.Preflight.Initramfs.check_size agenticlinux.Preflight.Initramfs.check_walk
    agenticlinux.Preflight.Cpio.initramfs_payload_offset agenticlinux.Preflight.Cpio.archives
    agenticlinux.Preflight.Cpio.padded agenticlinux.Preflight.Cpio.skip_zeros
    agenticlinux.Preflight.Cpio.read_exact_at agenticlinux.Preflight.Cpio.cpio_has_checksum
    agenticlinux.Preflight.Cpio.archive_at agenticlinux.Preflight.Initramfs.check_payload
    agenticlinux.Preflight.Kernel.detect_compression agenticlinux.Text.starts_with
    agenticlinux.Preflight.Initramfs.test_payload lookup
good_initramfs = refl

check_initramfs-Good_example :
    (b : Bytes) × (v : Machine) × (lookup initramfs tree.files ≡ some b)
    × (1024 ≤ length b)
    × GoodImage linked_host (record { content = b; fault = linked_host.read_fault initramfs v }) v
check_initramfs-Good_example = check_initramfs-Good linked_host initramfs tree good_initramfs

nothing_fatal : Clean (run linked_system (codes "/d") (codes "/bin/x") [] tree).0
unfolding agenticlinux.Preflight.Findings.fatal_messages check_initramfs
    agenticlinux.Machine.Fs.read equal agenticlinux.Preflight.Initramfs.check_opened
    agenticlinux.Preflight.Initramfs.check_size agenticlinux.Preflight.Initramfs.check_walk
    agenticlinux.Preflight.Cpio.initramfs_payload_offset agenticlinux.Preflight.Cpio.archives
    agenticlinux.Preflight.Cpio.padded agenticlinux.Preflight.Cpio.skip_zeros
    agenticlinux.Preflight.Cpio.read_exact_at agenticlinux.Preflight.Cpio.cpio_has_checksum
    agenticlinux.Preflight.Cpio.archive_at agenticlinux.Preflight.Initramfs.check_payload
    agenticlinux.Preflight.Kernel.detect_compression agenticlinux.Text.starts_with
    agenticlinux.Preflight.Initramfs.test_payload lookup run agenticlinux.Preflight.Run.run_in
    agenticlinux.Machine.Fs.has_dir agenticlinux.Preflight.Run.kernels
    agenticlinux.Preflight.Run.check_kernels agenticlinux.Preflight.Run.subdirs
    agenticlinux.Text.strip_prefix agenticlinux.Text.has_char agenticlinux.Preflight.Run.next_kernel
    agenticlinux.Machine.Fs.exists agenticlinux.Preflight.Run.kernel_image
    agenticlinux.Preflight.Run.judge_kernel agenticlinux.Preflight.Initramfs.read_head
    agenticlinux.Preflight.Kernel.check_kernel agenticlinux.Preflight.Run.initramfs_image
    agenticlinux.Preflight.Run.initramfs_if agenticlinux.Preflight.Run.kernel_args
    agenticlinux.Preflight.Run.check_args agenticlinux.Machine.Fs.read_dir
    agenticlinux.Machine.Fs.dirs_in agenticlinux.Machine.Fs.names_in
    agenticlinux.Preflight.Run.only_dirs agenticlinux.Text.Order.sort
    agenticlinux.Text.Order.insert_sorted agenticlinux.Text.Order.before
    agenticlinux.Preflight.Run.check_fstabs agenticlinux.Preflight.Run.unseen
    agenticlinux.Preflight.Run.fstabs agenticlinux.Machine.Helpers.read_or_empty
    agenticlinux.Machine.Fs.read_to_string agenticlinux.Utf8.from_utf8
    agenticlinux.Preflight.Specs.check_fstab agenticlinux.Preflight.Specs.check_lines
    agenticlinux.Text.Split.lines agenticlinux.Text.trim agenticlinux.Text.trim_matches
    agenticlinux.Text.trim_start_matches agenticlinux.Text.trim_end_matches
    agenticlinux.Text.is_whitespace agenticlinux.Preflight.Specs.needed_device
    agenticlinux.Preflight.Specs.fstab_fields agenticlinux.Text.Split.split_whitespace
    agenticlinux.Preflight.Specs.needed_of agenticlinux.Preflight.Specs.is_skipped
    agenticlinux.Text.any agenticlinux.Text.contains agenticlinux.Text.Split.split
    agenticlinux.Preflight.Specs.missing agenticlinux.Preflight.Resolve.check_tool
    agenticlinux.Preflight.Resolve.found_tool agenticlinux.Preflight.Resolve.resolve_beneath
    agenticlinux.Preflight.Resolve.resolve_from agenticlinux.Preflight.Resolve.walk
    agenticlinux.Preflight.Resolve.at_name agenticlinux.Preflight.Resolve.followed
    agenticlinux.Preflight.Resolve.names agenticlinux.Preflight.Resolve.kept_names
    agenticlinux.Preflight.Resolve.is_no_name agenticlinux.Preflight.Resolve.link_base
    agenticlinux.Preflight.Resolve.below agenticlinux.Preflight.Resolve.join_done
    agenticlinux.Sys.Executable.is_executable agenticlinux.Sys.Executable.runs_with encode
    agenticlinux.Preflight.Kernel.check_plain agenticlinux.Preflight.Kernel.is_bzimage
    agenticlinux.Preflight.Kernel.has_magic agenticlinux.Preflight.Kernel.get_range
    agenticlinux.Preflight.Kernel.check_arm64_image
nothing_fatal = refl

run-Passes_example : Passes linked_system (codes "/d") (codes "/bin/x") [] tree
run-Passes_example = run-Passes linked_system (codes "/d") (codes "/bin/x") [] tree nothing_fatal
