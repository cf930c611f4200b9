-- ===== src/Ast/Files.antt =====
-- ast/config.go, ast/test.go, ast/error_nodes.go and ast/ast.go: the declarations of infrastructure
-- and of tests, and the file that holds declarations. A nil pointer is `none`, a nil expression is
-- `absent`.
use domainscript.Prelude.{Bool, Option, List, Text}
use domainscript.Ast.{Span, Expr, Exprs}
use domainscript.Ast.Decls.{
  Field, ConfigEntry, MapEntry, ValueObjectDecl, EnumDecl, ErrorTypeDecl, EventDecl, AggregateDecl,
  CommandDecl, UseCaseDecl, ViewDecl, ProjectionDecl, QueryDecl, PolicyDecl, WorkerDecl,
  NotificationDecl, AdapterDecl, ForeignDecl, SagaDecl, MetricDecl, UpcastDecl,
}

pub record ConfigBlock : Type 0 where
  pub span : Span
  pub kind : Text
  pub name : Text
  pub entries : List ConfigEntry

pub record ModuleDecl : Type 0 where
  pub span : Span
  pub name : Text
  pub settings : List ConfigEntry
  pub blocks : List ConfigBlock

pub record Route : Type 0 where
  pub span : Span
  pub method : Text
  pub path : Text
  pub target : Text
  pub options : List ConfigEntry

pub record GrpcRpc : Type 0 where
  pub name : Text
  pub target : Text

pub record GrpcService : Type 0 where
  pub span : Span
  pub name : Text
  pub rpcs : List GrpcRpc

pub record InterfaceDecl : Type 0 where
  pub span : Span
  pub kind : Text
  pub settings : List ConfigEntry
  pub routes : List Route
  pub services : List GrpcService

pub record ServiceDef : Type 0 where
  pub span : Span
  pub name : Text
  pub entries : List ConfigEntry

pub record ChannelDef : Type 0 where
  pub span : Span
  pub from : Text
  pub to : Text
  pub entries : List ConfigEntry

pub record TopologyDecl : Type 0 where
  pub span : Span
  pub services : List ServiceDef
  pub channels : List ChannelDef

pub record RateLimitTierDecl : Type 0 where
  pub span : Span
  pub name : Text
  pub entries : List ConfigEntry

pub record VersionUpcast : Type 0 where
  pub span : Span
  pub target : Text
  pub from : List Field
  pub to : List MapEntry

pub record VersionDowncast : Type 0 where
  pub span : Span
  pub target : Text
  pub to : List MapEntry

pub record VersionRoute : Type 0 where
  pub span : Span
  pub path : Text
  pub target : Text

pub record VersionDecl : Type 0 where
  pub span : Span
  pub version : Text
  pub deprecated : Expr
  pub sunset : Expr
  pub upcasts : List VersionUpcast
  pub downcasts : List VersionDowncast
  pub routes : List VersionRoute

pub record MockClause : Type 0 where
  pub span : Span
  pub target : Expr
  pub returns : Expr

pub record FailStep : Type 0 where
  pub span : Span
  pub step : Text
  pub with : Text

pub record GivenEntity : Type 0 where
  pub entity : Expr
  pub state : Expr

pub record GivenClause : Type 0 where
  pub span : Span
  pub subject : Expr
  pub binding : Text
  pub entities : List GivenEntity
  pub state : Expr

pub record WhenClause : Type 0 where
  pub span : Span
  pub is_event : Bool
  pub action : Expr

pub record ThenAssert : Type 0 where
  pub span : Span
  pub subject : Expr
  pub verb : Text
  pub object : Expr
  pub count : Expr
  pub list : Exprs
  pub error : Text

pub record ThenClause : Type 0 where
  pub span : Span
  pub error : Text
  pub events : Exprs
  pub asserts : List ThenAssert
  pub state : Expr

pub record ScenarioDecl : Type 0 where
  pub span : Span
  pub name : Text
  pub mocks : List MockClause
  pub fails : List FailStep
  pub givens : List GivenClause
  pub when : Option WhenClause
  pub then : Option ThenClause

pub record PropertyDecl : Type 0 where
  pub span : Span
  pub name : Text
  pub forall : Expr
  pub invariant : Expr

pub record TestDecl : Type 0 where
  pub span : Span
  pub name : Text
  pub scenarios : List ScenarioDecl
  pub properties : List PropertyDecl

pub record FixtureDecl : Type 0 where
  pub span : Span
  pub name : Text
  pub givens : List GivenClause

pub data Decl : Type 0 where
  error_decl : Span → Decl
  value_object : ValueObjectDecl → Decl
  enum : EnumDecl → Decl
  error_type : ErrorTypeDecl → Decl
  event : EventDecl → Decl
  aggregate : AggregateDecl → Decl
  command : CommandDecl → Decl
  use_case : UseCaseDecl → Decl
  view : ViewDecl → Decl
  projection : ProjectionDecl → Decl
  query : QueryDecl → Decl
  policy : PolicyDecl → Decl
  worker : WorkerDecl → Decl
  notification : NotificationDecl → Decl
  adapter : AdapterDecl → Decl
  foreign : ForeignDecl → Decl
  saga : SagaDecl → Decl
  metric : MetricDecl → Decl
  upcast : UpcastDecl → Decl
  module_decl : ModuleDecl → Decl
  interface : InterfaceDecl → Decl
  topology : TopologyDecl → Decl
  version : VersionDecl → Decl
  rate_limit_tier : RateLimitTierDecl → Decl
  test : TestDecl → Decl
  fixture : FixtureDecl → Decl

pub record File : Type 0 where
  pub span : Span
  pub decls : List Decl
