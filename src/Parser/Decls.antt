-- ===== src/Parser/Decls.antt =====
-- parser/parse_decl.go, parser/parse_config.go and parser/parse_testfile.go: declarations and files.
pub mod Fields
pub mod Config
pub mod Domain
pub mod Behaviour
pub mod ReadSide
pub mod Reactions
pub mod Integration
pub mod Infrastructure
pub mod Versions
pub mod TestFiles
pub mod Assertions
pub mod Files
