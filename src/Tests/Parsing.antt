-- ===== src/Tests/Parsing.antt =====
-- The parser on texts that the lexer reads, and its theorems there.
use domainscript.Prelude.{
  ℕ, ◌≡◌, refl, List, [], ◌∷◌, ◌++◌, map, Text, String, codes, Option, some, none, ◌>>=◌,
  if◌then◌else◌, Returns,
}
use domainscript.Token.{Token, kind_string}
use domainscript.Lexer.{lex}
use domainscript.Ast.{Expr, ident, literal, binary, unary, member, lambda, range, error_expr}
use domainscript.Tests.{ascii}
use domainscript.Diag
use domainscript.Parser.{new_parser, parse_expr, parse_stmt, synchronize, stmt_stop}
use domainscript.Parser.Moves.{Ends}
use domainscript.Parser.Blocks.{parse_stmt-Ends}
use domainscript.Parser.Termination.{parse_expr-Ends}
use domainscript.Parser.Recovery.{
  tokens, ends_with_eof, empty_eof, new_parser-tokens, SkipsTo, synchronize-SkipsTo,
}

-- The tokens of a text of which the lexer has read no error.
abbrev tokens_of : String → List Token
tokens_of s = elim (lex ascii (codes s)) [ some r ↦ r.0 | none ↦ [] ]

-- The tree as a text, with its parentheses.
abbrev shape : Expr → Text
shape (ident s n) = n
shape (literal s k v) = v
shape (binary s k l r) = codes "(" ++ (shape l ++ (kind_string k ++ (shape r ++ codes ")")))
shape (unary s k x) = codes "[" ++ (kind_string k ++ (shape x ++ codes "]"))
shape (member s x n p) = shape x ++ (codes "." ++ n)
shape (lambda s n b) = n ++ (codes "=>" ++ shape b)
shape (range s l h) = shape l ++ (codes ".." ++ shape h)
shape (error_expr s) = codes "?"
shape e = codes "…"

abbrev parsed : String → Option (Text × ℕ × List Text)
parsed s = parse_expr (new_parser (tokens_of s) Diag.new) >>= λ r.
    some (shape r.0, r.1.pos, map (λ d. d.msg) r.1.bag.items)

parse-precedence :
    (parsed "a + b * c == -d.e and f" ≡ some (codes "(((a+(b*c))==[-d.e])andf)", 12, []))
    × (parsed "x => 1 .. n - 1 - 2" ≡ some (codes "x=>1..((n-1)-2)", 11, []))
    × (parsed "a + ) * b"
        ≡ some (codes "(a+?)", 2, codes "esperava uma expressão, encontrei )" ∷ []))
unfolding parse_expr new_parser lex Diag.errorf Diag.add kind_string
parse-precedence = (refl, refl, refl)

new_parser-tokens_example : tokens (new_parser (tokens_of "a + b") Diag.new).ahead ≡ (
    if ends_with_eof (tokens_of "a + b")
    then tokens_of "a + b"
    else tokens_of "a + b" ++ empty_eof ∷ [])
new_parser-tokens_example = new_parser-tokens (tokens_of "a + b") Diag.new

parse_expr-Ends_example :
    Returns
      (Ends (new_parser (tokens_of "f(a, [1 ") Diag.new))
      (parse_expr (new_parser (tokens_of "f(a, [1 ") Diag.new))
parse_expr-Ends_example = parse_expr-Ends (new_parser (tokens_of "f(a, [1 ") Diag.new)

synchronize-SkipsTo_example :
    let p = new_parser (tokens_of "* ) return x }") Diag.new in
    SkipsTo stmt_stop p (synchronize stmt_stop p) × ((synchronize stmt_stop p).bag ≡ p.bag)
synchronize-SkipsTo_example =
    synchronize-SkipsTo stmt_stop (new_parser (tokens_of "* ) return x }") Diag.new)

abbrev block_text : String
block_text =
    "{ for x in xs { ensure x.ok else continue log warn \"m\" { a = } y = load A(x) t match y { A.b => z } }"

abbrev stmt_reports : String → Option (ℕ × List Text)
stmt_reports s = parse_stmt (new_parser (tokens_of s) Diag.new) >>= λ r.
    some (r.1.pos, map (λ d. d.msg) r.1.bag.items)

parse-recovers :
    (stmt_reports "{ x = 1 break }" ≡ some (6, []))
    × (stmt_reports "emit }" ≡ some (1, codes "esperava uma expressão, encontrei }" ∷ []))
unfolding parse_stmt new_parser lex Diag.errorf Diag.add kind_string
parse-recovers = (refl, refl)

parse_stmt-Ends_example :
    Returns
      (Ends (new_parser (tokens_of block_text) Diag.new))
      (parse_stmt (new_parser (tokens_of block_text) Diag.new))
parse_stmt-Ends_example = parse_stmt-Ends (new_parser (tokens_of block_text) Diag.new)
