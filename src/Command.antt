-- ===== src/Command.antt =====
-- application/command (errors.go fixes its two errors) and application/usecase/usecase.go on the
-- write side: the generic bus of Bus.antt with the errors of this package.
use go_ddd_core.Prelude.{String, Option}
use go_ddd_core.Errors.{Error, plain}
use go_ddd_core.Bus
use go_ddd_core.Bus.{GoType, DispatchFunc, InMemoryBus, Effect}

-- `ErrHandlerNotFound`
abbrev pub err_handler_not_found : Error
err_handler_not_found = plain "command: handler not found"

-- `ErrCommandMismatch`
abbrev pub err_command_mismatch : Error
err_command_mismatch = plain "command: command type mismatch"

-- `Handler.Handle` of a handler made by `HandlerFunc(f)`.
unfoldable pub handler_func : {P S R : Type 0} → (P → Effect S R) → P → Effect S R
handler_func f c = f c

-- `usecase.Func(f).Execute`
unfoldable pub use_case_func : {D S R : Type 0} → (D → Effect S R) → D → Effect S R
use_case_func f d = f d

-- `usecase.AsCommandHandler(uc)`, of a use case given by its Execute.
unfoldable pub as_command_handler : {D S R : Type 0} → (D → Effect S R) → D → Effect S R
unfolding handler_func
as_command_handler execute = handler_func execute

module _ {P S R : Type 0} (command_name : GoType → P → Option String) where
  -- `Register[C, R](bus, h)`
  unfoldable pub register :
      (GoType → P) → GoType → (P → Effect S R) → InMemoryBus P S R → InMemoryBus P S R
  register probe t h b = Bus.register command_name err_command_mismatch probe t h b

  -- `b.Dispatch(ctx, cmd)`
  unfoldable pub dispatch : InMemoryBus P S R → DispatchFunc P S R
  dispatch b c = Bus.dispatch command_name err_handler_not_found b c
