-- ===== src/Examples.antt =====
-- The modules of the theorems at concrete inputs.
mod Counters
mod Stamped
mod Sets
mod Manager
mod Peers
pub mod Database
pub mod Guest
pub mod Calls
