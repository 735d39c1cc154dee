-- ===== src/Cmd.antt =====
-- cmd: the two programs, and the functions of package strings that they use.
pub mod Text
pub mod Kvctl
pub mod Flags
pub mod Examples
