-- ===== src/Resolver/Bodies/Declarations.antt =====
-- resolver/resolve_body.go: the bodies of a declaration, each in the root scope of its construct.
use domainscript.Prelude.{Option, none, some, List, [], ◌∷◌, ◌++◌, Text, text_eq}
use domainscript.Diag.{Diagnostic}
use domainscript.Ast.{Block}
use domainscript.Ast.Decls.{
  Field, OperatorDecl, CoerceBlock, AccessRule, HandleDecl, ApplyDecl, SagaStep,
}
use domainscript.Ast.Files.{
  Decl, value_object, enum, aggregate, use_case, query, policy, worker, saga,
}
use domainscript.Symbols.{SymbolTable}
use domainscript.Resolver.Scope.{
  Scope, new_scope, bind_param, Construct, construct_handle, construct_apply, construct_access,
  construct_valid, construct_operator, construct_use_case_execute, construct_policy_execute,
  construct_coerce, construct_saga_step, construct_query, construct_worker_source, seed_receivers,
}
use domainscript.Resolver.Bodies.{define_named, resolve_expr, resolve_block_in}

-- The loops of `resolveBody` over the groups of fields.
abbrev pub seed_fields : Scope → List Field → Scope
seed_fields sc [] = sc
seed_fields sc (f ∷ fs) = seed_fields (define_named bind_param f.name sc) fs

abbrev pub seed_groups : Scope → List (List Field) → Scope
seed_groups sc [] = sc
seed_groups sc (fs ∷ groups) = seed_groups (seed_fields sc fs) groups

-- The parameter of the `execute` of a worker.
abbrev pub execute_scope : Text → Scope
execute_scope name = define_named bind_param name new_scope

module _ (quote : Text → Text) (t : SymbolTable Decl) (m : Text) where
  unfoldable pub resolve_body : Option Block → Construct → List (List Field) → List Diagnostic
  unfolding seed_receivers resolve_block_in
  resolve_body none c groups = []
  resolve_body (some b) c groups =
      (resolve_block_in quote t m (seed_groups (seed_receivers new_scope c) groups) b).0

  -- `resolveBlockIn` on a block that may be nil, at the end of a body.
  abbrev pub resolve_opt : Scope → Option Block → List Diagnostic
  unfolding resolve_block_in
  resolve_opt sc none = []
  resolve_opt sc (some b) = (resolve_block_in quote t m sc b).0

  abbrev pub operator_bodies : List Field → List OperatorDecl → List Diagnostic
  unfolding resolve_body
  operator_bodies fields [] = []
  operator_bodies fields (op ∷ ops) =
      resolve_body (some op.body) construct_operator (op.params ∷ fields ∷ [])
      ++ operator_bodies fields ops

  abbrev pub coerce_body : Option CoerceBlock → List Diagnostic
  unfolding resolve_body
  coerce_body none = []
  coerce_body (some c) = resolve_body (some c.body) construct_coerce []

  abbrev pub handler_bodies : List HandleDecl → List Diagnostic
  unfolding resolve_body
  handler_bodies [] = []
  handler_bodies (h ∷ hs) =
      resolve_body (some h.body) construct_handle (h.params ∷ []) ++ handler_bodies hs

  abbrev pub applier_bodies : List ApplyDecl → List Diagnostic
  unfolding resolve_body
  applier_bodies [] = []
  applier_bodies (a ∷ as') = resolve_body (some a.body) construct_apply [] ++ applier_bodies as'

  abbrev pub access_conditions : List AccessRule → List Diagnostic
  unfolding resolve_expr seed_receivers
  access_conditions [] = []
  access_conditions (rule ∷ rules) =
      resolve_expr quote t m (seed_receivers new_scope construct_access) rule.condition
      ++ access_conditions rules

  abbrev pub step_bodies : List SagaStep → List Diagnostic
  unfolding resolve_body
  step_bodies [] = []
  step_bodies (s ∷ steps) =
      resolve_body s.up construct_saga_step []
      ++ (resolve_body s.down construct_saga_step []
          ++ (resolve_body s.on_infra_error construct_saga_step [] ++ step_bodies steps))

  unfoldable pub resolve_decl_bodies : Decl → List Diagnostic
  unfolding resolve_body resolve_expr resolve_block_in
  resolve_decl_bodies (value_object n) =
      resolve_body n.valid construct_valid (n.fields ∷ []) ++ operator_bodies n.fields n.operators
  resolve_decl_bodies (enum n) = coerce_body n.coerce
  resolve_decl_bodies (aggregate n) =
      handler_bodies n.handlers ++ (applier_bodies n.appliers ++ access_conditions n.access)
  resolve_decl_bodies (use_case n) = resolve_body n.execute construct_use_case_execute []
  resolve_decl_bodies (query n) = resolve_body (some n.body) construct_query (n.params ∷ [])
  resolve_decl_bodies (policy n) = resolve_body n.execute construct_policy_execute []
  resolve_decl_bodies (worker n) =
      resolve_body n.source construct_worker_source []
      ++ resolve_opt (execute_scope n.execute_param) n.execute
  resolve_decl_bodies (saga n) = step_bodies n.steps
  resolve_decl_bodies _ = []
