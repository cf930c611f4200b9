-- ===== src/Types.antt =====
-- types/type.go: the static types of values and their relations. A `*FuncType` is a pointer that
-- the model of types fills in after it has handed it out, so a function type is a reference into a
-- heap of signatures, which may be cyclic. `VOType`, `EnumType` and `ShapeType` are compared by name
-- alone; their fields are not read here.
pub mod Identity
pub mod Termination
use domainscript.Prelude.{
  ℕ, zero, suc, ◌+◌, Bool, true, false, not, ◌&&◌, ◌||◌, Option, none, some, [], ◌∷◌, ◌++◌, Text,
  codes, ◌==◌, nat_eq, text_eq, if◌then◌else◌, ◌>>=◌,
}

-- The variants of `Type`. `nil_type` is the nil interface, `error_type` the sentinel `ErrorType`.
mutual
  pub data StaticType : Type 0 where
    nil_type error_type : StaticType
    primitive value_object enum_type shape : Text → StaticType
    generic : Text → StaticTypes → StaticType
    func : ℕ → StaticType

  pub data StaticTypes : Type 0 where
    no_types : StaticTypes
    type_cons : StaticType → StaticTypes → StaticTypes

-- `FuncType`
pub record FuncType : Type 0 where
  pub params : StaticTypes
  pub result : StaticType

-- What the pointers of `func` point to.
abbrev pub Heap : Type 0
Heap = ℕ → FuncType

abbrev pub type_count : StaticTypes → ℕ
type_count no_types = 0
type_count (type_cons t ts) = suc (type_count ts)

-- `IsError`: nil counts as an error.
unfoldable pub is_error_type : StaticType → Bool
is_error_type nil_type = true
is_error_type error_type = true
is_error_type _ = false

unfoldable pub is_primitive : StaticType → Bool
is_primitive (primitive _) = true
is_primitive _ = false

-- `isPrim`
unfoldable pub is_prim : StaticType → Text → Bool
is_prim (primitive n) name = n == name
is_prim _ name = false

-- The loop over two lists of the same length, which stops at the first difference.
unfoldable pub all_identical :
    (StaticType → StaticType → Option Bool) → StaticTypes → StaticTypes → Option Bool
all_identical same (type_cons a as') (type_cons b bs) =
    same a b >>= λ e. if e then all_identical same as' bs else some false
all_identical same _ _ = some true

-- The case of `*FuncType` in `Identical`.
unfoldable pub identical_funcs :
    (StaticType → StaticType → Option Bool) → FuncType → FuncType → Option Bool
unfolding all_identical
identical_funcs same x y =
    if not (type_count x.params == type_count y.params)
    then some false
    else (all_identical same x.params y.params >>= λ e.
        if e then same x.result y.result else some false)

-- The case of `*Generic`.
unfoldable pub identical_generics :
    (StaticType → StaticType → Option Bool) → Text → StaticTypes → Text → StaticTypes → Option Bool
unfolding all_identical
identical_generics same c xs d ys =
    if not (c == d) || not (type_count xs == type_count ys)
    then some false
    else all_identical same xs ys

-- One level of `Identical`, with the calls that it makes of itself.
unfoldable pub identical_step :
    (StaticType → StaticType → Option Bool) → Heap → StaticType → StaticType → Option Bool
unfolding identical_funcs identical_generics
identical_step same h (primitive m) (primitive n) = some (m == n)
identical_step same h (value_object m) (value_object n) = some (m == n)
identical_step same h (enum_type m) (enum_type n) = some (m == n)
identical_step same h (shape m) (shape n) = some (m == n)
identical_step same h (generic c xs) (generic d ys) = identical_generics same c xs d ys
identical_step same h (func p) (func q) = identical_funcs same (h p) (h q)
identical_step same h error_type error_type = some true
identical_step same h _ _ = some false

-- `Identical`, on a stack of the given depth; `none` is the overflow of the stack.
unfoldable pub identical : Heap → ℕ → StaticType → StaticType → Option Bool
unfolding identical_step
identical h zero a b = none
identical h (suc n) a b = identical_step (identical h n) h a b

unfoldable pub assignable : Heap → ℕ → StaticType → StaticType → Option Bool
unfolding is_error_type is_prim identical
assignable h n dst src =
    if is_error_type dst || is_error_type src
    then some true
    else (identical h n dst src >>= λ e.
        some (e || (is_prim dst (codes "decimal") && is_prim src (codes "integer"))))

-- sema/rules_compat.go: `reportable`, which decides whether a use is a type error.
unfoldable pub reportable : Heap → ℕ → StaticType → StaticType → Option Bool
unfolding is_error_type is_primitive assignable
reportable h n dst src =
    if is_error_type dst || is_error_type src
    then some false
    else if is_primitive dst || is_primitive src
    then some false
    else (assignable h n dst src >>= λ a. some (not a))
