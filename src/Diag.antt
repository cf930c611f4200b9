-- ===== src/Diag.antt =====
-- diag/diagnostic.go: diagnostics and `DiagnosticBag`. The map `seen` is an association list, and
-- `sort.SliceStable` is the stable insertion sort. A bag is passed and returned, not shared.
pub mod Key
pub mod Invariant
pub mod Collect
pub mod Sorted
use domainscript.Prelude.{
  ℕ, ◌+◌, Bool, true, false, not, ◌&&◌, ◌||◌, List, [], ◌∷◌, ◌++◌, Text, codes, itoa, Map, text_eq,
  nat_eq, ◌==◌, Option, none, some, leb, ltb, length, if◌then◌else◌,
}
use domainscript.Prelude
use domainscript.Token.{Pos, less, pos_string}

-- `SeverityError` and `SeverityWarning`
pub data Severity : Type 0 where
  error warning : Severity

-- The value of the constant, by `iota`, as `%d` prints it.
abbrev pub severity_number : Severity → ℕ
severity_number error = 0
severity_number warning = 1

-- `Severity.String`
unfoldable pub severity_string : Severity → Text
severity_string error = codes "error"
severity_string warning = codes "warning"

abbrev pub is_error : Severity → Bool
is_error error = true
is_error warning = false

pub record Diagnostic : Type 0 where
  pub severity : Severity
  pub pos : Pos
  pub msg : Text
  pub code : Text

-- `Diagnostic.String`
unfoldable pub diagnostic_string : Diagnostic → Text
unfolding severity_string pos_string
diagnostic_string d =
    let sev = severity_string d.severity in
    let coded = if d.code == [] then sev else sev ++ (codes "[" ++ (d.code ++ codes "]")) in
    pos_string d.pos ++ (codes ": " ++ (coded ++ (codes ": " ++ d.msg)))

pub record DiagnosticBag : Type 0 where
  pub items : List Diagnostic
  pub seen : Map Text Bool
  pub max_errors : ℕ
  pub errors : ℕ
  pub truncated : Bool

abbrev pub new_with_max : ℕ → DiagnosticBag
new_with_max n = record { items = []; seen = []; max_errors = n; errors = 0; truncated = false }

abbrev pub default_max_errors : ℕ
default_max_errors = 100

abbrev pub new : DiagnosticBag
new = new_with_max default_max_errors

-- The text under which `Add` remembers a diagnostic: `"%d:%d|%d|%s"`.
unfoldable pub key : Diagnostic → Text
key d =
    itoa d.pos.line
    ++ (b':' ∷ (itoa d.pos.col ++ (b'|' ∷ (itoa (severity_number d.severity) ++ (b'|' ∷ d.msg)))))

-- `b.seen[key]`: a missing key reads as false.
abbrev pub or_false : Option Bool → Bool
or_false (some b) = b
or_false none = false

abbrev pub seen_at : Text → Map Text Bool → Bool
seen_at k m = or_false (Prelude.lookup k m)

-- The end of `Add`, once the diagnostic is to be kept.
abbrev pub keep : DiagnosticBag → Diagnostic → DiagnosticBag
keep b d = record b {
  items = b.items ++ (d ∷ []);
  seen = Prelude.insert (key d) true b.seen;
  errors = if is_error d.severity then b.errors + 1 else b.errors;
}

unfoldable pub add : DiagnosticBag → Diagnostic → DiagnosticBag
add b d =
    if b.truncated
    then b
    else if seen_at (key d) b.seen
    then b
    else if is_error d.severity && leb b.max_errors b.errors
    then record b { truncated = true }
    else keep b d

-- Every phase adds its diagnostics in turn.
unfoldable pub add_all : DiagnosticBag → List Diagnostic → DiagnosticBag
add_all b [] = b
add_all b (d ∷ ds) = add_all (add b d) ds

-- `Errorf`, `CodedErrorf` and `Warningf`, with the formatted message.
unfoldable pub errorf : DiagnosticBag → Pos → Text → DiagnosticBag
unfolding add
errorf b pos msg = add b (record { severity = error; pos = pos; msg = msg; code = [] })

unfoldable pub coded_errorf : DiagnosticBag → Pos → Text → Text → DiagnosticBag
unfolding add
coded_errorf b pos code msg = add b (record { severity = error; pos = pos; msg = msg; code = code })

unfoldable pub warningf : DiagnosticBag → Pos → Text → DiagnosticBag
unfolding add
warningf b pos msg = add b (record { severity = warning; pos = pos; msg = msg; code = [] })

unfoldable pub has_errors : DiagnosticBag → Bool
has_errors b = ltb 0 b.errors || b.truncated

-- `Len`
abbrev pub len : DiagnosticBag → ℕ
len b = length b.items

-- `sort.SliceStable` by position: an element goes behind those that it is not before.
unfoldable pub insert_stable : Diagnostic → List Diagnostic → List Diagnostic
insert_stable d [] = d ∷ []
insert_stable d (e ∷ es) = if less e.pos d.pos then e ∷ insert_stable d es else d ∷ e ∷ es

unfoldable pub sort_stable : List Diagnostic → List Diagnostic
unfolding insert_stable
sort_stable [] = []
sort_stable (d ∷ ds) = insert_stable d (sort_stable ds)

-- `All`
unfoldable pub all : DiagnosticBag → List Diagnostic
unfolding sort_stable
all b = sort_stable b.items

-- The loop of `Render`, one line for each diagnostic.
abbrev render_lines : List Diagnostic → Text
render_lines [] = []
render_lines (d ∷ []) = diagnostic_string d
render_lines (d ∷ e ∷ es) = diagnostic_string d ++ (b'\n' ∷ render_lines (e ∷ es))

abbrev suppressed : ℕ → Text
suppressed n =
    codes "error: coleta interrompida após "
    ++ (itoa n ++ codes " erros; demais diagnósticos suprimidos")

unfoldable pub render : DiagnosticBag → Text
unfolding all diagnostic_string
render b =
    let lines = render_lines (all b) in
    if b.truncated
    then (if lines == []
        then suppressed b.max_errors
        else lines ++ (b'\n' ∷ suppressed b.max_errors))
    else lines
