-- ===== src/Bus.antt =====
-- application/command, in the form that application/query repeats line by line: routing names by
-- reflection, middlewares and the in-memory bus. The two packages differ in the method that names a
-- value (CommandName, QueryName) and in two error values, which are parameters here and are fixed in
-- Command.antt and Query.antt. The parameter `method` gives the result of the naming method on a
-- value of a dynamic type, and none for a type that has no such method; `probe` is the payload of the
-- value by which a type is probed: the zero value, or a pointer to a new zero value. A context is not
-- modelled: the code only passes it on. A call of a handler has effects on a program state.
pub mod Laws
use go_ddd_core.Prelude.{
  String, Bool, true, false, ◌&&◌, Option, none, some, List, [], ◌∷◌, reverse, str_eq, eq_iff,
  if◌then◌else◌, ◌≡◌, arith,
}
use go_ddd_core.Prelude.Dict.{Dict, lookup, insert}
use go_ddd_core.Errors.{Error, Result, err}

-- A named type with its package path and its name (`t.Name()`, "" for an unnamed type such as a
-- slice), or a pointer to a type.
pub data GoType : Type 0 where
  named : String → String → GoType
  pointer : GoType → GoType

-- `t.Kind() == reflect.Pointer`
abbrev pub is_pointer : GoType → Bool
is_pointer (named p n) = false
is_pointer (pointer t) = true

-- Identity of types, as in a type assertion, for the types of `GoType`.
unfoldable pub type_eq : GoType → GoType → Bool
type_eq (named p n) (named q m) = str_eq p q && str_eq n m
type_eq (named p n) (pointer t) = false
type_eq (pointer t) (named q m) = false
type_eq (pointer t) (pointer u) = type_eq t u

-- `for t.Kind() == reflect.Pointer { t = t.Elem() }; t.Name()`
unfoldable pub base_name : GoType → String
base_name (named p n) = n
base_name (pointer t) = base_name t

-- A value of an interface type that is not nil: its dynamic type and the rest of it.
pub record Value (P : Type 0) : Type 0 where
  pub dynamic_type : GoType
  pub payload : P

-- A call reads and changes the state of the program, and returns a value or an error.
abbrev pub Effect : Type 0 → Type 0 → Type 0
Effect S A = S → S × Result A

abbrev pub fail : {S A : Type 0} → Error → Effect S A
fail e s = (s, err e)

pub type_eq_refl : (t : GoType) → type_eq t t ≡ true
unfolding type_eq
type_eq_refl (named p n) = ground (arith, eq_iff p p, eq_iff n n)
type_eq_refl (pointer t) = type_eq_refl t

-- A result of the naming method that is there and not empty, or the name of the type.
abbrev pub name_or_type : Option String → GoType → String
name_or_type none t = base_name t
name_or_type (some s) t = if str_eq s "" then base_name t else s

module _ {P : Type 0} (method : GoType → P → Option String) where
  -- `NameOf(cmd)`
  unfoldable pub name_of : Option (Value P) → String
  name_of none = ""
  name_of (some v) = name_or_type (method v.dynamic_type v.payload) v.dynamic_type

  -- `nameOfType[C]()`
  unfoldable pub name_of_type : (GoType → P) → GoType → String
  name_of_type probe t = name_or_type (method t (probe t)) t

-- `DispatchFunc` and `Middleware`. A command is nil or a value.
abbrev pub DispatchFunc : Type 0 → Type 0 → Type 0 → Type 0
DispatchFunc P S R = Option (Value P) → Effect S R

abbrev pub Middleware : Type 0 → Type 0 → Type 0 → Type 0
Middleware P S R = DispatchFunc P S R → DispatchFunc P S R

pub record InMemoryBus (P S R : Type 0) : Type 0 where
  pub handlers : Dict (DispatchFunc P S R)
  pub middlewares : List (Middleware P S R)

module _ {P S R : Type 0} where
  -- The loop of `Chain`, over the middlewares from the last to the first.
  unfoldable pub chain_loop : List (Middleware P S R) → DispatchFunc P S R → DispatchFunc P S R
  chain_loop [] next = next
  chain_loop (m ∷ ms) next = chain_loop ms (m next)

  -- `Chain(mws...)`
  unfoldable pub chain : List (Middleware P S R) → DispatchFunc P S R → DispatchFunc P S R
  unfolding chain_loop
  chain mws next = chain_loop (reverse mws) next

  -- `Apply(fn, mws...)`
  unfoldable pub apply : DispatchFunc P S R → List (Middleware P S R) → DispatchFunc P S R
  unfolding chain
  apply fn mws = chain mws fn

  -- `NewInMemoryBus(mws...)`
  unfoldable pub new_in_memory_bus : List (Middleware P S R) → InMemoryBus P S R
  new_in_memory_bus mws = record { handlers = []; middlewares = mws }

  -- `b.RegisterHandler(name, fn)`
  unfoldable pub register_handler :
      String → DispatchFunc P S R → InMemoryBus P S R → InMemoryBus P S R
  register_handler name fn b = record b {
    handlers = insert name (apply fn b.middlewares) b.handlers;
  }

  -- The function that `Register` stores: it runs the handler on a value of the type `t` only.
  unfoldable pub typed : Error → GoType → (P → Effect S R) → DispatchFunc P S R
  typed mismatch t h none = fail mismatch
  typed mismatch t h (some v) = if type_eq v.dynamic_type t then h v.payload else fail mismatch

  -- What `Dispatch` does with the handler that it found.
  abbrev pub call_found : Error → Option (DispatchFunc P S R) → DispatchFunc P S R
  call_found not_found none c = fail not_found
  call_found not_found (some fn) c = fn c

module _ {P S R : Type 0} (method : GoType → P → Option String) where
  -- `Register[C, R](bus, h)` for the type `t`.
  unfoldable pub register :
      Error → (GoType → P) → GoType → (P → Effect S R) → InMemoryBus P S R → InMemoryBus P S R
  register mismatch probe t h b =
      register_handler (name_of_type method probe t) (typed mismatch t h) b

  -- `b.Dispatch(ctx, cmd)`
  unfoldable pub dispatch : Error → InMemoryBus P S R → DispatchFunc P S R
  dispatch not_found b c = call_found not_found (lookup (name_of method c) b.handlers) c
