-- ===== src/Parser.antt =====
-- parser/: from tokens to the tree, with recovery from errors of syntax.
mod Cursor
pub mod Moves
mod Operands
mod Expressions
mod Statements
pub mod Loops
pub mod Clauses
pub mod Termination
pub mod Recovery
pub mod Actions
pub mod Blocks
pub mod Sequence
pub mod Decls
unfoldable pub use Cursor.*
unfoldable pub use Operands.*
unfoldable pub use Expressions.*
unfoldable pub use Statements.*
