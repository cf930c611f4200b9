-- ===== src/Parser/Cursor.antt =====
-- parser/parser.go and parser/sync_sets.go: the cursor of the parser, its recovery and its window of
-- silence. `ahead` is `toks[pos:]`; that it ends with the EOF, which the constructor sees to, is part
-- of its type, so that the index never leaves the tokens.
use domainscript.Prelude.{
  ℕ, zero, suc, ◌+◌, Bool, true, false, not, ◌&&◌, ◌||◌, List, [], ◌∷◌, ◌++◌, Text, codes, ◌==◌,
  nat_eq, ltb, if◌then◌else◌,
}
use domainscript.Token.{
  Kind, Pos, Token, kind_eq, kind_string, eof, ident, rbrace, rparen, rbrack, comma, assign, gt,
  dot, valueobject, enum, error, event, publicevent, upcast, aggregate, command, usecase, view,
  projection, query, policy, worker, notification, adapter, foreign, saga, metric, module_kw,
  interface, topology, version, test, fixture, ensure, match, for, return, emit, log, break,
  continue,
}
use domainscript.Diag.{DiagnosticBag}
use domainscript.Diag
use domainscript.Ast.{Span}

-- The tokens from the current one on, closed by an EOF with its text and its position.
pub data Ahead : Type 0 where
  closing : Text → Pos → Ahead
  more : Token → Ahead → Ahead

abbrev pub head : Ahead → Token
head (closing lit pos) = record { kind = eof; lit = lit; pos = pos }
head (more t a) = t

abbrev pub tail : Ahead → Ahead
tail (closing lit pos) = closing lit pos
tail (more t a) = a

-- How many tokens are left before the closing EOF.
abbrev pub count : Ahead → ℕ
count (closing lit pos) = 0
count (more t a) = suc (count a)

-- `toks[pos + n]`, or the last token.
abbrev pub nth : ℕ → Ahead → Token
nth zero a = head a
nth (suc n) (closing lit pos) = head (closing lit pos)
nth (suc n) (more t a) = nth n a

pub record Parser : Type 0 where
  pub ahead : Ahead
  pub pos : ℕ
  pub bag : DiagnosticBag
  pub last_pos : Pos
  pub since_error : ℕ

-- The window of silence of every parser: `silenceWindow` is not written again.
abbrev pub default_silence_window : ℕ
default_silence_window = 2

abbrev pub no_pos : Pos
no_pos = record { line = 0; col = 0 }

-- The guard of `newParser`: an EOF is appended where the list does not end with one.
abbrev pub close_last : Token → Bool → Ahead
close_last t true = closing t.lit t.pos
close_last t false = more t (closing [] no_pos)

abbrev pub close : List Token → Ahead
close [] = closing [] no_pos
close (t ∷ []) = close_last t (t.kind == eof)
close (t ∷ s ∷ ts) = more t (close (s ∷ ts))

unfoldable pub new_parser : List Token → DiagnosticBag → Parser
new_parser toks bag =
    let ahead = close toks in
    record {
      ahead = ahead;
      pos = 0;
      bag = bag;
      last_pos = (head ahead).pos;
      since_error = default_silence_window;
    }

abbrev pub cur : Parser → Token
cur p = head p.ahead

abbrev pub peek_at : ℕ → Parser → Token
peek_at n p = nth n p.ahead

abbrev pub peek : Parser → Token
peek = peek_at 1

abbrev pub at : Kind → Parser → Bool
at k p = (cur p).kind == k

-- `sameLineAsPrev`
abbrev pub same_line_as_prev : Parser → Bool
same_line_as_prev p = (cur p).pos.line == p.last_pos.line

abbrev pub at_end : Parser → Bool
at_end p = (cur p).kind == eof

-- `advance`, which also gives the token that it leaves behind.
unfoldable pub advance : Parser → Parser
advance p = if at_end p then p else record p {
  ahead = tail p.ahead;
  pos = p.pos + 1;
  last_pos = (cur p).pos;
  since_error = p.since_error + 1;
}

-- `errorf`, with the formatted message.
unfoldable pub errorf : Pos → Text → Parser → Parser
unfolding Diag.errorf
errorf pos msg p =
    if ltb p.since_error default_silence_window
    then p
    else record p { bag = Diag.errorf p.bag pos msg; since_error = 0 }

unfoldable pub accept : Kind → Parser → Bool × Parser
unfolding advance
accept k p = if at k p then (true, advance p) else (false, p)

abbrev pub unexpected : Kind → Kind → Text
unexpected found k =
    codes "token inesperado " ++ (kind_string found ++ (codes "; esperava " ++ kind_string k))

abbrev pub expected : Text → Kind → Text
expected what found = codes "esperava " ++ (what ++ (codes ", encontrei " ++ kind_string found))

-- `expect`: the token is there; or it follows one that is dropped; or it is made up.
unfoldable pub expect : Kind → Parser → Bool × Parser
unfolding advance errorf
expect k p =
    if at k p
    then (true, advance p)
    else if (peek p).kind == k
    then (true, advance (advance (errorf (cur p).pos (unexpected (cur p).kind k) p)))
    else (false, errorf (cur p).pos (expected (kind_string k) (cur p).kind) p)

unfoldable pub ensure_progress : ℕ → Parser → Parser
unfolding advance
ensure_progress before p = if p.pos == before && not (at_end p) then advance p else p

-- `stopSet`: the kinds of the set.
abbrev pub contains : List Kind → Kind → Bool
contains [] k = false
contains (s ∷ ss) k = s == k || contains ss k

abbrev pub top_level_keywords : List Kind
top_level_keywords =
    valueobject ∷ enum ∷ error ∷ event ∷ publicevent ∷ upcast ∷ aggregate ∷ command ∷ usecase ∷ view
    ∷ projection ∷ query ∷ policy ∷ worker ∷ notification ∷ adapter ∷ foreign ∷ saga ∷ metric
    ∷ module_kw ∷ interface ∷ topology ∷ version ∷ test ∷ fixture ∷ []

abbrev pub top_level_stop : List Kind
top_level_stop = top_level_keywords ++ (eof ∷ [])

abbrev pub stmt_stop : List Kind
stmt_stop = ensure ∷ match ∷ for ∷ return ∷ emit ∷ log ∷ break ∷ continue ∷ top_level_stop

abbrev pub list_stop : List Kind
list_stop = comma ∷ rparen ∷ rbrack ∷ rbrace ∷ []

-- `synchronize`, on the tokens ahead of the parser.
unfoldable pub synchronize_on : Ahead → List Kind → Parser → Parser
unfolding advance
synchronize_on (closing lit pos) stop p = p
synchronize_on (more t a) stop p =
    let skipped = synchronize_on a stop (advance p) in
    if t.kind == eof || (t.kind == rbrace || contains stop t.kind) then p else skipped

unfoldable pub synchronize : List Kind → Parser → Parser
unfolding synchronize_on
synchronize stop p = synchronize_on p.ahead stop p

-- `spanFrom`
abbrev pub span_from : Pos → Parser → Span
span_from start p = record { start = start; end = p.last_pos }

-- `isNameableKeyword`, of parser/parse_decl.go.
abbrev pub is_nameable_keyword : Kind → Bool
is_nameable_keyword = contains top_level_keywords

abbrev pub match_any : List Kind → Parser → Bool
match_any [] p = false
match_any (o ∷ ops) p = if at o p then true else match_any ops p

-- `atDotDot`: two DOT tokens one after the other.
abbrev pub at_dot_dot : Parser → Bool
at_dot_dot p = at dot p && (peek p).kind == dot

-- `atFatArrow`: ASSIGN and GT one after the other.
abbrev pub at_fat_arrow : Parser → Bool
at_fat_arrow p = at assign p && (peek p).kind == gt

-- `atLambda`
abbrev pub at_lambda : Parser → Bool
at_lambda p = at ident p && ((peek p).kind == assign && (peek_at 2 p).kind == gt)

unfoldable pub expect_fat_arrow : Parser → Bool × Parser
unfolding advance errorf
expect_fat_arrow p =
    if at_fat_arrow p
    then (true, advance (advance p))
    else (false, errorf (cur p).pos (expected (codes "'=>'") (cur p).kind) p)

unfoldable pub parse_ident_name : Parser → Text × Parser
unfolding advance errorf
parse_ident_name p =
    if at ident p
    then ((cur p).lit, advance p)
    else ([], errorf (cur p).pos (expected (codes "um identificador") (cur p).kind) p)
