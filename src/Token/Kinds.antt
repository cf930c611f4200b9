-- ===== src/Token/Kinds.antt =====
-- token/token.go: the constants of `Kind`, their numbers, and the table `kinds` of their texts.
-- The group markers (`literal_beg` and so on) are constants of the source too.
use domainscript.Prelude.{
  ℕ, ◌≡◌, refl, ap, sym, ◌∙◌, ◌↔◌, Bool, true, ◌&&◌, List, [], ◌∷◌, Text, codes, itoa, ltb, nat_beq,
  nat_beq_iff, get_or, Eq, ◌++◌, ◌==◌, text_eq, if◌then◌else◌,
}

pub data Kind : Type 0 where
  illegal eof literal_beg ident int float string duration rate size versionid literal_end : Kind
  operator_beg lbrace rbrace lparen rparen lbrack rbrack comma dot colon arrow plus minus : Kind
  star slash assign eq neq lt gt le ge operator_end keyword_beg valueobject enum error : Kind
  event publicevent upcast aggregate command usecase view projection query policy worker : Kind
  notification adapter foreign saga metric module_kw interface topology version test : Kind
  fixture ensure match for in_kw log emit return break continue else_kw when and or : Kind
  not_kw true_kw false_kw ref handles on keyword_end : Kind

-- The value of the constant, by `iota`.
abbrev pub ordinal : Kind → ℕ
ordinal illegal = 0
ordinal eof = 1
ordinal literal_beg = 2
ordinal ident = 3
ordinal int = 4
ordinal float = 5
ordinal string = 6
ordinal duration = 7
ordinal rate = 8
ordinal size = 9
ordinal versionid = 10
ordinal literal_end = 11
ordinal operator_beg = 12
ordinal lbrace = 13
ordinal rbrace = 14
ordinal lparen = 15
ordinal rparen = 16
ordinal lbrack = 17
ordinal rbrack = 18
ordinal comma = 19
ordinal dot = 20
ordinal colon = 21
ordinal arrow = 22
ordinal plus = 23
ordinal minus = 24
ordinal star = 25
ordinal slash = 26
ordinal assign = 27
ordinal eq = 28
ordinal neq = 29
ordinal lt = 30
ordinal gt = 31
ordinal le = 32
ordinal ge = 33
ordinal operator_end = 34
ordinal keyword_beg = 35
ordinal valueobject = 36
ordinal enum = 37
ordinal error = 38
ordinal event = 39
ordinal publicevent = 40
ordinal upcast = 41
ordinal aggregate = 42
ordinal command = 43
ordinal usecase = 44
ordinal view = 45
ordinal projection = 46
ordinal query = 47
ordinal policy = 48
ordinal worker = 49
ordinal notification = 50
ordinal adapter = 51
ordinal foreign = 52
ordinal saga = 53
ordinal metric = 54
ordinal module_kw = 55
ordinal interface = 56
ordinal topology = 57
ordinal version = 58
ordinal test = 59
ordinal fixture = 60
ordinal ensure = 61
ordinal match = 62
ordinal for = 63
ordinal in_kw = 64
ordinal log = 65
ordinal emit = 66
ordinal return = 67
ordinal break = 68
ordinal continue = 69
ordinal else_kw = 70
ordinal when = 71
ordinal and = 72
ordinal or = 73
ordinal not_kw = 74
ordinal true_kw = 75
ordinal false_kw = 76
ordinal ref = 77
ordinal handles = 78
ordinal on = 79
ordinal keyword_end = 80

-- The constants in the order of their values.
abbrev pub all_kinds : List Kind
all_kinds =
    illegal ∷ eof ∷ literal_beg ∷ ident ∷ int ∷ float ∷ string ∷ duration ∷ rate ∷ size ∷ versionid
    ∷ literal_end ∷ operator_beg ∷ lbrace ∷ rbrace ∷ lparen ∷ rparen ∷ lbrack ∷ rbrack ∷ comma ∷ dot
    ∷ colon ∷ arrow ∷ plus ∷ minus ∷ star ∷ slash ∷ assign ∷ eq ∷ neq ∷ lt ∷ gt ∷ le ∷ ge
    ∷ operator_end ∷ keyword_beg ∷ valueobject ∷ enum ∷ error ∷ event ∷ publicevent ∷ upcast
    ∷ aggregate ∷ command ∷ usecase ∷ view ∷ projection ∷ query ∷ policy ∷ worker ∷ notification
    ∷ adapter ∷ foreign ∷ saga ∷ metric ∷ module_kw ∷ interface ∷ topology ∷ version ∷ test
    ∷ fixture ∷ ensure ∷ match ∷ for ∷ in_kw ∷ log ∷ emit ∷ return ∷ break ∷ continue ∷ else_kw
    ∷ when ∷ and ∷ or ∷ not_kw ∷ true_kw ∷ false_kw ∷ ref ∷ handles ∷ on ∷ keyword_end ∷ []

-- The entry of the table `kinds`; the markers have none.
abbrev pub kinds : Kind → Text
kinds illegal = codes "ILLEGAL"
kinds eof = codes "EOF"
kinds ident = codes "IDENT"
kinds int = codes "INT"
kinds float = codes "FLOAT"
kinds string = codes "STRING"
kinds duration = codes "DURATION"
kinds rate = codes "RATE"
kinds size = codes "SIZE"
kinds versionid = codes "VERSIONID"
kinds lbrace = codes "{"
kinds rbrace = codes "}"
kinds lparen = codes "("
kinds rparen = codes ")"
kinds lbrack = codes "["
kinds rbrack = codes "]"
kinds comma = codes ","
kinds dot = codes "."
kinds colon = codes ":"
kinds arrow = codes "->"
kinds plus = codes "+"
kinds minus = codes "-"
kinds star = codes "*"
kinds slash = codes "/"
kinds assign = codes "="
kinds eq = codes "=="
kinds neq = codes "!="
kinds lt = codes "<"
kinds gt = codes ">"
kinds le = codes "<="
kinds ge = codes ">="
kinds valueobject = codes "ValueObject"
kinds enum = codes "Enum"
kinds error = codes "Error"
kinds event = codes "Event"
kinds publicevent = codes "PublicEvent"
kinds upcast = codes "Upcast"
kinds aggregate = codes "Aggregate"
kinds command = codes "Command"
kinds usecase = codes "UseCase"
kinds view = codes "View"
kinds projection = codes "Projection"
kinds query = codes "Query"
kinds policy = codes "Policy"
kinds worker = codes "Worker"
kinds notification = codes "Notification"
kinds adapter = codes "Adapter"
kinds foreign = codes "Foreign"
kinds saga = codes "Saga"
kinds metric = codes "Metric"
kinds module_kw = codes "Module"
kinds interface = codes "Interface"
kinds topology = codes "Topology"
kinds version = codes "Version"
kinds test = codes "Test"
kinds fixture = codes "Fixture"
kinds ensure = codes "ensure"
kinds match = codes "match"
kinds for = codes "for"
kinds in_kw = codes "in"
kinds log = codes "log"
kinds emit = codes "emit"
kinds return = codes "return"
kinds break = codes "break"
kinds continue = codes "continue"
kinds else_kw = codes "else"
kinds when = codes "when"
kinds and = codes "and"
kinds or = codes "or"
kinds not_kw = codes "not"
kinds true_kw = codes "true"
kinds false_kw = codes "false"
kinds ref = codes "ref"
kinds handles = codes "handles"
kinds on = codes "on"
kinds _ = []

pub get_or-all_kinds : (k : Kind) → get_or all_kinds (ordinal k) illegal ≡ k
get_or-all_kinds illegal = refl
get_or-all_kinds _ = refl

-- Go's `==` on kinds compares the numbers.
abbrev pub kind_beq : Kind → Kind → Bool
kind_beq a b = nat_beq (ordinal a) (ordinal b)

pub ordinal-injective : (a b : Kind) → ordinal a ≡ ordinal b → a ≡ b
ordinal-injective a b h =
    sym (get_or-all_kinds a) ∙ ap (λ n. get_or all_kinds n illegal) h ∙ get_or-all_kinds b

pub kind_beq_iff : (a b : Kind) → (kind_beq a b ≡ true) ↔ (a ≡ b)
kind_beq_iff a b =
    (λ h. ordinal-injective a b ((nat_beq_iff _ _).0 h), λ e. (nat_beq_iff _ _).1 (ap ordinal e))

instance abbrev pub kind_eq : Eq Kind
kind_eq = record { beq = kind_beq; beq_iff = kind_beq_iff }

unfoldable pub is_literal : Kind → Bool
is_literal k = ltb (ordinal literal_beg) (ordinal k) && ltb (ordinal k) (ordinal literal_end)

unfoldable pub is_operator : Kind → Bool
is_operator k = ltb (ordinal operator_beg) (ordinal k) && ltb (ordinal k) (ordinal operator_end)

unfoldable pub is_keyword : Kind → Bool
is_keyword k = ltb (ordinal keyword_beg) (ordinal k) && ltb (ordinal k) (ordinal keyword_end)

-- `Kind.String`
unfoldable pub kind_string : Kind → Text
kind_string k = if kinds k == [] then codes "Kind(" ++ (itoa (ordinal k) ++ codes ")") else kinds k
