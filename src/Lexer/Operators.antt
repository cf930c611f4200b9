-- ===== src/Lexer/Operators.antt =====
-- lexer/lexer.go: `lexOperator`. Its result is false where no operator stands at the cursor.
use domainscript.Prelude.{
  ℕ, Bool, true, false, Option, some, [], ◌==◌, nat_eq, if◌then◌else◌, ◌>>=◌,
}
use domainscript.Token.{
  Kind, Pos, lbrace, rbrace, lparen, rparen, lbrack, rbrack, comma, dot, colon, arrow, plus, minus,
  star, slash, assign, eq, neq, lt, gt, le, ge,
}
use domainscript.Lexer.State.{Lexer, peek, peek2, advance, emit}

-- One rune consumed and a token of one rune emitted.
unfoldable pub operator1 : Kind → Pos → Lexer → Option (Bool × Lexer)
unfolding advance emit
operator1 k start l = do (_, l') ← advance l; some (true, emit k [] start l')

-- One rune consumed; if `second` follows, that one too, for the token `long`.
unfoldable pub operator2 : ℕ → Kind → Kind → Pos → Lexer → Option (Bool × Lexer)
unfolding advance emit
operator2 second long short start l = advance l >>= λ (_, l').
    if peek l' == second
    then (advance l' >>= λ (_, l''). some (true, emit long [] start l''))
    else some (true, emit short [] start l')

-- The case of `!`, which alone is no operator.
unfoldable pub operator_neq : Pos → Lexer → Option (Bool × Lexer)
unfolding advance emit
operator_neq start l =
    if peek2 l == b'='
    then (advance l >>= λ (_, l'). advance l' >>= λ (_, l''). some (true, emit neq [] start l''))
    else some (false, l)

-- `lexOperator`
unfoldable pub lex_operator : Pos → Lexer → Option (Bool × Lexer)
unfolding operator1 operator2 operator_neq
lex_operator start l =
    let r = peek l in
    if r == b'{'
    then operator1 lbrace start l
    else if r == b'}'
    then operator1 rbrace start l
    else if r == b'('
    then operator1 lparen start l
    else if r == b')'
    then operator1 rparen start l
    else if r == b'['
    then operator1 lbrack start l
    else if r == b']'
    then operator1 rbrack start l
    else if r == b','
    then operator1 comma start l
    else if r == b'.'
    then operator1 dot start l
    else if r == b':'
    then operator1 colon start l
    else if r == b'+'
    then operator1 plus start l
    else if r == b'*'
    then operator1 star start l
    else if r == b'/'
    then operator1 slash start l
    else if r == b'-'
    then operator2 b'>' arrow minus start l
    else if r == b'='
    then operator2 b'=' eq assign start l
    else if r == b'!'
    then operator_neq start l
    else if r == b'<'
    then operator2 b'=' le lt start l
    else if r == b'>'
    then operator2 b'=' ge gt start l
    else some (false, l)
