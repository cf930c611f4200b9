-- ===== src/Lexer.antt =====
-- lexer/lexer.go: the lexer, from runes to tokens and diagnostics.
mod State
mod Operators
mod Scan
pub mod Lexemes
pub mod Moves
pub mod Steps
pub mod Trivia
pub mod Tokens
pub mod Literals
pub mod One
pub mod Places
pub mod Run
unfoldable pub use State.*
unfoldable pub use Operators.*
unfoldable pub use Scan.*
