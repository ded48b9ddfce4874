-- ===== src/Pam.antt =====
-- The PAM module: pam_chos/pam_chos_util.c and pam_chos/pam_chos_helper.c, pam_chos/pam_chos.c.
pub mod Sanitize
pub mod Args
pub mod UserFile
pub mod Info
pub mod Session
