-- ===== src/Diag/Key.antt =====
-- diag/diagnostic.go: the deduplication key, and what it tells apart.
use domainscript.Prelude.{◌≡◌, refl, ◌↔◌, arith}
use domainscript.Prelude.Decimal.{itoa_split}
use domainscript.Diag.{Severity, severity_number, error, warning, Diagnostic, key}

pub severity_number-injective : (s t : Severity) → severity_number s ≡ severity_number t → s ≡ t
severity_number-injective error error h = refl
severity_number-injective error warning h = absurd (omega arith)
severity_number-injective warning error h = absurd (omega arith)
severity_number-injective warning warning h = refl

-- Two diagnostics that are the same for the bag: the code does not count.
abbrev pub Same : Diagnostic → Diagnostic → Type 0
Same d e = (d.pos ≡ e.pos) × (d.severity ≡ e.severity) × (d.msg ≡ e.msg)

-- The key of a diagnostic is that of another exactly if the two have the same position, the same
-- severity and the same message, whatever characters the messages hold.
pub key_exact : (d e : Diagnostic) → (key d ≡ key e) ↔ Same d e
unfolding key
key_exact d e = (forward, λ (p, s, m). cc)
  where
    forward : key d ≡ key e → Same d e
    forward h =
        let (line, r) = itoa_split b':' d.pos.line e.pos.line _ _ (omega arith) h in
        let (col, r') = itoa_split b'|' d.pos.col e.pos.col _ _ (omega arith) r in
        let (sev, msg) = itoa_split b'|' _ _ d.msg e.msg (omega arith) r' in
        (ground arith, severity_number-injective d.severity e.severity sev, msg)
