-- ===== src/Ast/Decls.antt =====
-- ast/decl.go: the declarations of the domain, their members and their types. A nil pointer is
-- `none`, a nil expression is `absent`.
use domainscript.Prelude.{Bool, Option, List, Text}
use domainscript.Ast.{Span, Expr, Block}

mutual
  pub data TypeRef : Type 0 where
    type_ref : Span → Text → TypeRefs → TypeRef

  pub data TypeRefs : Type 0 where
    no_types : TypeRefs
    type_cons : TypeRef → TypeRefs → TypeRefs

pub record Field : Type 0 where
  pub span : Span
  pub name : Text
  pub type : TypeRef
  pub ref : Bool
  pub redactable : Bool
  pub default : Expr

pub record OperatorDecl : Type 0 where
  pub span : Span
  pub op : Text
  pub params : List Field
  pub return : TypeRef
  pub body : Block

pub record ValueObjectDecl : Type 0 where
  pub span : Span
  pub name : Text
  pub base : Option TypeRef
  pub fields : List Field
  pub valid : Option Block
  pub operators : List OperatorDecl

pub record EnumMember : Type 0 where
  pub span : Span
  pub name : Text
  pub value : Expr

pub record CoerceBlock : Type 0 where
  pub span : Span
  pub from : TypeRef
  pub body : Block

pub record EnumDecl : Type 0 where
  pub span : Span
  pub name : Text
  pub base : Option TypeRef
  pub members : List EnumMember
  pub coerce : Option CoerceBlock

pub record ErrorTypeDecl : Type 0 where
  pub span : Span
  pub name : Text
  pub message : Expr

pub record EventDecl : Type 0 where
  pub span : Span
  pub name : Text
  pub public : Bool
  pub fields : List Field

pub record StorageEntry : Type 0 where
  pub key : Text
  pub value : Text

pub record AccessRule : Type 0 where
  pub span : Span
  pub name : Text
  pub condition : Expr

pub record HandleDecl : Type 0 where
  pub span : Span
  pub name : Text
  pub params : List Field
  pub body : Block

pub record ApplyDecl : Type 0 where
  pub span : Span
  pub event : Text
  pub body : Block

pub record AggregateDecl : Type 0 where
  pub span : Span
  pub name : Text
  pub strategy : Text
  pub snapshot : Expr
  pub storage : List StorageEntry
  pub state : List Field
  pub access : List AccessRule
  pub handlers : List HandleDecl
  pub appliers : List ApplyDecl

pub record CommandDecl : Type 0 where
  pub span : Span
  pub name : Text
  pub fields : List Field

pub record UseCaseDecl : Type 0 where
  pub span : Span
  pub name : Text
  pub handles : Text
  pub timeout : Expr
  pub idempotency : Expr
  pub tenancy : Text
  pub execute : Option Block

pub record ConfigEntry : Type 0 where
  pub key : Text
  pub value : Expr

pub record MapEntry : Type 0 where
  pub name : Text
  pub value : Expr

pub record ViewDecl : Type 0 where
  pub span : Span
  pub name : Text
  pub from : Text
  pub fields : List Field
  pub visibility : List AccessRule

pub record ProjectionDecl : Type 0 where
  pub span : Span
  pub name : Text
  pub sources : List Text
  pub map : List MapEntry
  pub refresh_on : Expr

pub record QueryDecl : Type 0 where
  pub span : Span
  pub name : Text
  pub params : List Field
  pub return : Option TypeRef
  pub cache : List ConfigEntry
  pub body : Block

pub record PolicyDecl : Type 0 where
  pub span : Span
  pub name : Text
  pub on : Text
  pub delivery : Text
  pub execute : Option Block

pub record WorkerDecl : Type 0 where
  pub span : Span
  pub name : Text
  pub schedule : Text
  pub schedule_arg : Expr
  pub scope : Text
  pub settings : List ConfigEntry
  pub source : Option Block
  pub execute_param : Text
  pub execute : Option Block

pub record NotificationDecl : Type 0 where
  pub span : Span
  pub name : Text
  pub fields : List Field

pub record AdapterDecl : Type 0 where
  pub span : Span
  pub name : Text
  pub mode : Text
  pub http_method : Text
  pub http_url : Expr
  pub headers : List MapEntry
  pub body : List MapEntry
  pub lang : Expr
  pub from : Expr
  pub function : Expr
  pub map : List MapEntry

pub record ForeignFunc : Type 0 where
  pub span : Span
  pub name : Text
  pub params : List Field
  pub return : Option TypeRef

pub record ForeignDecl : Type 0 where
  pub span : Span
  pub lang : Expr
  pub from : Expr
  pub functions : List ForeignFunc

pub record SagaStep : Type 0 where
  pub span : Span
  pub name : Text
  pub up : Option Block
  pub down : Option Block
  pub on_infra_error : Option Block

pub record SagaDecl : Type 0 where
  pub span : Span
  pub name : Text
  pub handles : Text
  pub mode : Text
  pub timeout : Expr
  pub state : List Field
  pub steps : List SagaStep

pub record MetricDecl : Type 0 where
  pub span : Span
  pub name : Text
  pub type : Text
  pub value : Expr
  pub on : Expr
  pub buckets : Expr
  pub labels : List MapEntry

pub record UpcastDecl : Type 0 where
  pub span : Span
  pub event : Text
  pub from_ver : Text
  pub to_ver : Text
  pub body : Block
