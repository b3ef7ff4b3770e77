-- ===== src/Tests.antt =====
-- Concrete inputs: runs of the definitions, and each theorem with a hypothesis applied to one.
pub mod Hosts
pub mod Checks
mod Runs
mod Stages
mod Blocks
pub mod Trials
pub mod Health
mod Texts
mod Images
pub mod Boots
mod Entries
