-- ===== src/Lexer/Scan.antt =====
-- lexer/lexer.go: the scanning functions, one for each kind of token. The tables of the package
-- `unicode` and the quoting of `%q` are a parameter: what they are at ASCII is a law of it.
use domainscript.Prelude.{
  ℕ, zero, suc, ◌≡◌, ◌<◌, Bool, true, false, not, ◌&&◌, ◌||◌, Option, none, some, List, [], ◌∷◌,
  ◌++◌, Text, codes, ◌==◌, nat_eq, text_eq, leb, length, if◌then◌else◌, ◌>>=◌,
}
use domainscript.Token.{
  Kind, Pos, Token, eof, ident, int, float, string, duration, rate, size, versionid, lookup_ident,
  kind_eq,
}
use domainscript.Diag.{Diagnostic}
use domainscript.Lexer.Operators.{lex_operator}
use domainscript.Lexer.State.{
  Lexer, here, at_end, peek, peek2, consume, advance, advance_n, take_while, emit, errorf,
}

abbrev pub within : ℕ → ℕ → ℕ → Bool
within lo hi c = leb lo c && leb c hi

-- `isDigit`
abbrev pub is_digit : ℕ → Bool
is_digit r = within b'0' b'9' r

-- `unicode.IsLetter`, `unicode.IsDigit`, and `%q` at a rune and at a string.
pub record Unicode : Type 0 where
  pub is_letter : ℕ → Bool
  pub is_decimal : ℕ → Bool
  pub quote_rune : ℕ → Text
  pub quote : Text → Text
  pub letter_ascii : (r : ℕ) → r < 128 → is_letter r ≡ (within b'a' b'z' r || within b'A' b'Z' r)
  pub decimal_ascii : (r : ℕ) → r < 128 → is_decimal r ≡ is_digit r

-- `lineOrFile`
abbrev pub line_or_file : Bool → Text
line_or_file at_eof = if at_eof then codes "arquivo" else codes "linha"

-- The maps `durationUnits` and `sizeUnits`.
unfoldable pub is_duration_unit : Text → Bool
is_duration_unit s =
    s == codes "ms" || s == codes "s" || s == codes "min" || s == codes "h" || s == codes "d"

unfoldable pub is_size_unit : Text → Bool
is_size_unit s =
    s == codes "B" || s == codes "KB" || s == codes "MB" || s == codes "GB" || s == codes "TB"

abbrev pub all_digits : Text → Bool
all_digits [] = true
all_digits (r ∷ rs) = is_digit r && all_digits rs

-- `isVersionID`: a `v` with at least one digit and nothing else behind it.
unfoldable pub is_version_id : Text → Bool
is_version_id [] = false
is_version_id (r ∷ []) = false
is_version_id (r ∷ s ∷ t) = r == b'v' && all_digits (s ∷ t)

-- Blanks, as `skipTrivia` tests for them.
abbrev pub is_blank : ℕ → Bool
is_blank r = r == b' ' || r == b'\t' || r == b'\r' || r == b'\n'

-- The inner loop of `skipTrivia`: up to the end of the line.
unfoldable pub skip_comment : Text → Lexer → Lexer
skip_comment [] l = l
skip_comment (r ∷ rs) l =
    let more = skip_comment rs (consume r rs l) in if not (r == b'\n') then more else l

-- The outer loop, on fuel.
unfoldable pub skip_trivia_loop : ℕ → Lexer → Option Lexer
unfolding advance skip_comment
skip_trivia_loop zero l = none
skip_trivia_loop (suc f) l =
    let blank = advance l >>= λ (_, l'). skip_trivia_loop f l' in
    let comment = skip_trivia_loop f (skip_comment l.rest l) in
    if at_end l
    then some l
    else if is_blank (peek l)
    then blank
    else if peek l == b'/' && peek2 l == b'/'
    then comment
    else some l

unfoldable pub skip_trivia : Lexer → Option Lexer
unfolding skip_trivia_loop
skip_trivia l = skip_trivia_loop (suc (length l.rest)) l

-- The rune that an escape stands for; another rune stands for itself, with a diagnostic.
abbrev pub unescape : ℕ → ℕ
unescape e = if e == b'n' then b'\n' else if e == b't' then b'\t' else e

abbrev pub is_escape : ℕ → Bool
is_escape e = e == b'n' || e == b't' || e == b'"' || e == b'\\'

abbrev pub initial : Text → Lexer
initial src = record { rest = src; line = 1; col = 1; toks = []; diags = [] }

module _ (u : Unicode) where
  -- `isIdentStart` and `isIdentPart`
  unfoldable pub is_ident_start : ℕ → Bool
  is_ident_start r = r == b'_' || u.is_letter r

  unfoldable pub is_ident_part : ℕ → Bool
  is_ident_part r = r == b'_' || u.is_letter r || u.is_decimal r

  unfoldable pub lex_ident_or_keyword : Pos → Lexer → Lexer
  unfolding take_while emit is_version_id lookup_ident is_ident_part
  lex_ident_or_keyword start l =
      let (text, l') = take_while is_ident_part l in
      if is_version_id text
      then emit versionid text start l'
      else if not (lookup_ident text == ident)
      then emit (lookup_ident text) [] start l'
      else emit ident text start l'

  -- The runes of an identifier at the head of a text.
  unfoldable pub ident_run : Text → Text
  unfolding is_ident_part
  ident_run [] = []
  ident_run (r ∷ rs) = if is_ident_part r then r ∷ ident_run rs else []

  abbrev pub behind : Text → Text
  behind [] = []
  behind (_ ∷ rs) = rs

  -- `scanNumberSuffix`: the kind and the text of a suffix, which it consumes, or nothing.
  unfoldable pub scan_number_suffix : Lexer → Option (Option (Kind × Text) × Lexer)
  unfolding is_ident_start ident_run is_duration_unit is_size_unit advance advance_n
  scan_number_suffix l =
      let unit = ident_run l.rest in
      let rate_unit = ident_run (behind l.rest) in
      if is_ident_start (peek l)
      then (if is_duration_unit unit
          then (advance_n (length unit) l >>= λ l'. some (some (duration, unit), l'))
          else if is_size_unit unit
          then (advance_n (length unit) l >>= λ l'. some (some (size, unit), l'))
          else some (none, l))
      else if peek l == b'/'
      then (if is_duration_unit rate_unit
          then (advance l >>= λ (_, l').
              advance_n (length rate_unit) l' >>= λ l''. some (some (rate, b'/' ∷ rate_unit), l''))
          else some (none, l))
      else some (none, l)

  -- The fraction of a number: a dot counts only in front of a digit.
  unfoldable pub lex_fraction : Text → Lexer → Option (Kind × Text × Lexer)
  unfolding advance take_while
  lex_fraction lit l =
      if peek l == b'.' && is_digit (peek2 l)
      then (advance l >>= λ (_, l').
          let (digits, l'') = take_while is_digit l' in some (float, lit ++ b'.' ∷ digits, l''))
      else some (int, lit, l)

  unfoldable pub emit_number : Pos → Kind → Text → Option (Kind × Text) × Lexer → Lexer
  unfolding emit
  emit_number start kind lit (some (k, suffix), l) = emit k (lit ++ suffix) start l
  emit_number start kind lit (none, l) = emit kind lit start l

  unfoldable pub lex_number : Pos → Lexer → Option Lexer
  unfolding take_while lex_fraction scan_number_suffix emit_number
  lex_number start l =
      let (digits, l1) = take_while is_digit l in
      lex_fraction digits l1 >>= λ (kind, lit, l2).
      scan_number_suffix l2 >>= λ scanned. some (emit_number start kind lit scanned)

  unterminated : Bool → Text
  unterminated at_eof =
      codes "string não terminada: esperava aspas de fechamento "
      ++ (u.quote (b'"' ∷ []) ++ (codes " antes do fim da " ++ line_or_file at_eof))

  -- The two ways in which a string ends without its quotes.
  unfoldable pub end_unterminated : Pos → Text → Bool → Lexer → Lexer
  unfolding unterminated errorf emit
  end_unterminated start sb at_eof l = emit string sb start (errorf start (unterminated at_eof) l)

  -- The state behind an escape, with the diagnostic of one that is not valid.
  unfoldable pub note_escape : Pos → ℕ → Lexer → Lexer
  unfolding errorf
  note_escape at e l =
      if is_escape e
      then l
      else errorf at (codes "sequência de escape inválida " ++ u.quote (b'\\' ∷ e ∷ [])) l

  -- The loop of `lexString`, with what it has decoded.
  unfoldable pub lex_string_loop : Text → Pos → Text → Lexer → Lexer
  unfolding end_unterminated note_escape consume emit
  lex_string_loop [] start sb l = end_unterminated start sb true l
  lex_string_loop (r ∷ []) start sb l =
      let plain = lex_string_loop [] start (sb ++ r ∷ []) (consume r [] l) in
      if r == b'\n'
      then end_unterminated start sb false l
      else if r == b'"'
      then emit string sb start (consume r [] l)
      else if r == b'\\'
      then end_unterminated start sb true (consume r [] l)
      else plain
  lex_string_loop (r ∷ e ∷ es) start sb l =
      let l1 = consume r (e ∷ es) l in
      let escaped =
        lex_string_loop es start (sb ++ unescape e ∷ [])
          (note_escape (here l) e (consume e es l1)) in
      let plain = lex_string_loop (e ∷ es) start (sb ++ r ∷ []) l1 in
      if r == b'\n'
      then end_unterminated start sb false l
      else if r == b'"'
      then emit string sb start l1
      else if r == b'\\'
      then (if e == b'\n' then end_unterminated start sb false l1 else escaped)
      else plain

  unfoldable pub lex_string : Pos → Lexer → Option Lexer
  unfolding advance lex_string_loop
  lex_string start l = advance l >>= λ (_, l'). some (lex_string_loop l'.rest start [] l')

  abbrev pub invalid_rune : ℕ → Text
  invalid_rune bad = codes "caractere inválido " ++ u.quote_rune bad

  -- The default case of the loop of `run`.
  unfoldable pub lex_invalid : Pos → Lexer → Option Lexer
  unfolding advance errorf
  lex_invalid start l = advance l >>= λ (bad, l'). some (errorf start (invalid_rune bad) l')

  -- The switch in the loop of `run`.
  unfoldable pub lex_one : Pos → Lexer → Option Lexer
  unfolding is_ident_start lex_ident_or_keyword lex_number lex_string lex_operator lex_invalid
  lex_one start l =
      if is_ident_start (peek l)
      then some (lex_ident_or_keyword start l)
      else if is_digit (peek l)
      then lex_number start l
      else if peek l == b'"'
      then lex_string start l
      else (lex_operator start l >>= λ (known, l'). if known then some l' else lex_invalid start l')

  -- `run`, on fuel.
  unfoldable pub run : ℕ → Lexer → Option Lexer
  unfolding skip_trivia emit lex_one
  run zero l = none
  run (suc f) l = skip_trivia l >>= λ l'.
      let more = lex_one (here l') l' >>= run f in
      if at_end l' then some (emit eof [] (here l') l') else more

  -- `Lex`: the tokens and the diagnostics.
  unfoldable pub lex : Text → Option (List Token × List Diagnostic)
  unfolding run
  lex src = run (suc (length src)) (initial src) >>= λ l. some (l.toks, l.diags)
