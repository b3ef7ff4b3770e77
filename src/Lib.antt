-- ===== src/Lib.antt =====
-- agenticlinux-bootguard: the tool that rolls a failed `bootc upgrade --apply` back.
--
-- At shutdown the staged image is checked and a trial is armed: the boot loader is told of the image
-- and of the number of boot attempts. Every boot counts one attempt; the boot service assesses the
-- boot, guards a trial with a watchdog, and rolls back where the attempts are used up. Two boot
-- stacks are served: ostree with GRUB, whose state is the block grubenv and a snippet in custom.cfg,
-- and composefs with systemd-boot, whose counter stands in the name of a boot entry.
--
-- The parts, and the code that each one models (paths from the repository's root):
--   State      bootguard/src/state.rs and grub-custom.cfg: the decisions, the marked block, and (in
--              State.Lifecycle) the snippet as a step of GRUB.
--   Grubenv    bootguard/src/grubenv.rs: Env as a list of variables, its codec, its two file
--              operations (Grubenv.File).
--   Grub       bootguard/src/grub.rs: setup, arm, clear_trial, the tests of grub.cfg and custom.cfg.
--   Sdboot     bootguard/src/sdboot.rs: names, EFI variables, records; Sdboot.Files has what is done
--              with files.
--   Bootc      bootguard/src/bootc.rs: the status and the boot order; Bootc.Commands runs programs.
--   Config     bootguard/src/config.rs.
--   Preflight  bootguard/src/preflight.rs: Kernel (check_kernel, detect_compression), Cpio
--              (initramfs_payload_offset, byte_sum), Initramfs (check_initramfs, read_head), Specs
--              (spec_to_dev, check_kargs, check_fstab), Kargs (parse_kargs_toml), Resolve
--              (resolve_beneath, check_tool) and Run (run, subdirs). Devices and Entries describe, apart
--              from the code, what a specification names and which fstab entries need a device; so does
--              Bootc.Line for a line of `ostree admin status`.
--   Sys        bootguard/src/sys.rs: is_safe_id, is_executable (Sys.Executable) and the wait for a
--              child (Sys.Deadline). The rest of sys.rs is Machine.Helpers.
--   Backend    bootguard/src/backend.rs; Backend.Report has the lines of `status`.
--   Commands   bootguard/src/main.rs: records, notices, cmd_assess, cmd_boot, cmd_clear; Arm
--              (cmd_preflight, cmd_arm), Scripts (the health checks), Check (cmd_check, cmd_status),
--              Watch (cmd_watch) and Main (main).
-- Prelude, Text and Utf8 are what the code uses of the language: a text is the list of its
-- characters, a Result's error is its message, UTF-8 is read as String::from_utf8_lossy reads it.
--
-- A command is a function on Machine (Machine.Monad): the files, the directories, the faults to come
-- and the log of the programs that were run. Each file operation (Machine.Fs) takes the next fault,
-- so a theorem on all machines is one on all failures; a write that fails has left its file as it
-- was, or opened it and put down any part of the bytes. `Path::exists` meets a fault only where
-- unstage asks for the staged directory; elsewhere it is answered by what is there. The other
-- programs are a Host: what each replies and how it leaves the files; it also tells what the kernel
-- knows of a path (its mode, its target as a symbolic link, the errors of reads at an offset). Where
-- a theorem needs that `mount` leaves a file's content alone, it says so.
--
-- Fuel: scan and the other loops recurse on their text. The rounds of byte_sum each take a byte or
-- more, so the number of bytes is enough. Each round of the cpio walk takes a header of 110 bytes, so
-- one more than the length is enough; the walk is none where the fuel runs out. trim_stars and
-- trim_dot_slash take two characters in a round and have the length.
--
-- wait_from has a round for each 100 ms of the timeout and two more, as a round sleeps that long; the
-- watchdog's loops never end, so cmd_watch takes the number of rounds that are looked at. A link of
-- resolve_beneath takes one of the 40 that may be followed, and the names in between are a list.
--
-- Not modelled: logging and printing, sleeping (the clock of a loop is a parameter), and which of
-- the different timeouts a program meets (a program that meets its deadline is a reply of the Host,
-- and Sys.Deadline has the loop that finds this out, and where it may block for ever); serde_json
-- and toml, which fill the structures; the escapes of `{:?}` in messages; an entry of a directory
-- that fails to be read apart from its directory; a directory where a file is opened; the parents of
-- a created directory.
pub mod Prelude
pub mod Text
pub mod State
pub mod Utf8
pub mod Grubenv
pub mod Machine
pub mod Sdboot
pub mod Bootc
pub mod Config
pub mod Grub
pub mod Sys
pub mod Commands
pub mod Backend
pub mod Tests
pub mod Preflight
