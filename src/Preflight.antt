-- ===== src/Preflight.antt =====
-- bootguard/src/preflight.rs: the static checks of a staged deployment.
pub mod Findings
pub mod Kernel
pub mod Cpio
pub mod Specs
pub mod Devices
pub mod Entries
pub mod Kargs
pub mod Resolve
pub mod Initramfs
pub mod Run
pub mod KernelLaws
pub mod Sums
pub mod Offset
pub mod SpecLaws
pub mod InitramfsLaws
pub mod Same
pub mod KernelDirs
pub mod TextFiles
pub mod RunLaws
pub mod ResolveLaws
