-- ===== src/User.antt =====
-- The user programs.
pub mod Grep
pub mod Printf
pub mod Ulib
pub mod Sh
pub mod Wc
