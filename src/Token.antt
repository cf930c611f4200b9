-- ===== src/Token.antt =====
-- token/token.go: kinds, keywords, positions and tokens.
mod Kinds
mod Lookup
mod Positions
pub mod Keywords
pub mod Order
unfoldable pub use Kinds.*
unfoldable pub use Lookup.*
unfoldable pub use Positions.*
use domainscript.Prelude.{
  Bool, ◌&&◌, ◌||◌, ◌++◌, ◌==◌, not, codes, text_eq, [], Text, if◌then◌else◌,
}

pub record Token : Type 0 where
  pub kind : Kind
  pub lit : Text
  pub pos : Pos

-- `Token.String`
unfoldable pub token_string : Token → Text
token_string t =
    if not (t.lit == []) && (is_literal t.kind || t.kind == illegal)
    then kind_string t.kind ++ (codes "(" ++ (t.lit ++ codes ")"))
    else kind_string t.kind
