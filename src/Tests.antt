-- ===== src/Tests.antt =====
-- Runs of the model on concrete data, and the theorems at concrete inputs.
pub mod World
pub mod Kernel
pub mod Main
pub mod Jobs
pub mod Pam
pub mod Command
pub mod Patch
pub mod Module
pub mod System
pub mod Login
pub mod Links
pub mod Locks
pub mod Nodes
