-- ===== src/Kernel.antt =====
-- kernel/chos_lkm.c and kernel/chos.h.
pub mod State
pub mod Links
pub mod Buffer
pub mod Paths
pub mod Proc
pub mod Fork
pub mod System
pub mod Patch
pub mod World
pub mod Locks
pub mod Module
