-- ===== src/Query.antt =====
-- application/query: the read side's copy of the bus (query.go, inmem.go, middleware.go, errors.go),
-- which is line by line that of application/command with the method QueryName and the errors of this
-- package, and the read side of application/usecase/usecase.go.
use go_ddd_core.Prelude.{String, List, Option}
use go_ddd_core.Errors.{Error, plain}
use go_ddd_core.Bus
use go_ddd_core.Bus.{GoType, Value, DispatchFunc, Middleware, InMemoryBus, Effect}

-- `ErrHandlerNotFound`
abbrev pub err_handler_not_found : Error
err_handler_not_found = plain "query: handler not found"

-- `ErrQueryMismatch`
abbrev pub err_query_mismatch : Error
err_query_mismatch = plain "query: query type mismatch"

-- `usecase.AsQueryHandler(uc)`, of a use case given by its Execute.
unfoldable pub as_query_handler : {D S R : Type 0} → (D → Effect S R) → D → Effect S R
as_query_handler execute d = execute d

module _ {P : Type 0} (query_name : GoType → P → Option String) where
  -- `NameOf(q)`
  unfoldable pub name_of : Option (Value P) → String
  name_of q = Bus.name_of query_name q

  -- `nameOfType[Q]()`
  unfoldable pub name_of_type : (GoType → P) → GoType → String
  name_of_type probe t = Bus.name_of_type query_name probe t

module _ {P S R : Type 0} where
  -- `Chain(mws...)`
  unfoldable pub chain : List (Middleware P S R) → DispatchFunc P S R → DispatchFunc P S R
  chain mws next = Bus.chain mws next

  -- `NewInMemoryBus(mws...)`
  unfoldable pub new_in_memory_bus : List (Middleware P S R) → InMemoryBus P S R
  new_in_memory_bus mws = Bus.new_in_memory_bus mws

  -- `b.RegisterHandler(name, fn)`
  unfoldable pub register_handler :
      String → DispatchFunc P S R → InMemoryBus P S R → InMemoryBus P S R
  register_handler name fn b = Bus.register_handler name fn b

module _ {P S R : Type 0} (query_name : GoType → P → Option String) where
  -- `Register[Q, R](bus, h)`
  unfoldable pub register :
      (GoType → P) → GoType → (P → Effect S R) → InMemoryBus P S R → InMemoryBus P S R
  register probe t h b = Bus.register query_name err_query_mismatch probe t h b

  -- `b.Dispatch(ctx, q)`
  unfoldable pub dispatch : InMemoryBus P S R → DispatchFunc P S R
  dispatch b q = Bus.dispatch query_name err_handler_not_found b q
