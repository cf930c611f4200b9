-- ===== src/Sema.antt =====
-- sema/: the rules on the declarations of a program.
pub mod Distance
pub mod Flow
pub mod Domain
pub mod Warnings
pub mod Coverage
pub mod Topology
