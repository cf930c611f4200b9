-- ===== src/Program.antt =====
-- program/: the program behind its files.
pub mod Graph
