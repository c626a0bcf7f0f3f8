-- ===== src/Tests/Wiring.antt =====
-- The buses, the event router and the bootstrap container.
use go_ddd_core.Prelude.{
  ℕ, suc, String, ◌≡◌, refl, Option, none, some, List, [], ◌∷◌, ◌++◌, str_eq, if◌then◌else◌,
}
use go_ddd_core.Prelude.Int.{pos}
use go_ddd_core.Prelude.Dict.{lookup}
use go_ddd_core.Errors.{Error, plain, wrapped, ok}
use go_ddd_core.Bus
use go_ddd_core.Bus.{
  GoType, named, pointer, Value, type_eq, Effect, InMemoryBus, name_of, name_of_type, base_name,
}
use go_ddd_core.Bus.Laws.{wrapped_by, dispatch-register, dispatch-register_typed}
use go_ddd_core.Eventbus
use go_ddd_core.Eventbus.{
  Envelope, Router, Signal, envelope, closed, RunState, handlers_of, run_handlers, run_loop,
}
use go_ddd_core.Eventbus.Laws.{delivered, ending, settle_all, run_loop-settle_all}
use go_ddd_core.Bootstrap.Lifecycle
use go_ddd_core.Bootstrap.Lifecycle.{Hook, Lifecycle, Action}
use go_ddd_core.Bootstrap.Lifecycle.Laws.{unwound}
use go_ddd_core.Bootstrap.Registry
use go_ddd_core.Bootstrap.Registry.{AdapterRegistry, resolve, new_adapter_registry}
use go_ddd_core.Bootstrap.App
use go_ddd_core.Bootstrap.App.{Container, Module, start_modules, start_error}
use go_ddd_core.Bootstrap.App.Laws.{stop_hooks, run_unwinds}

abbrev Log : Type 0
Log = List ℕ

-- A handler that logs its command and returns it.
abbrev echo : ℕ → Effect Log ℕ
echo p log = (log ++ p ∷ [], ok p)

abbrev no_method : GoType → ℕ → Option String
no_method t p = none

abbrev zero_value : GoType → ℕ
zero_value t = 0

abbrev ship : GoType
ship = named "shop" "Ship"

abbrev other_ship : GoType
other_ship = named "navy" "Ship"

abbrev empty_bus : InMemoryBus ℕ Log ℕ
empty_bus = record { handlers = []; middlewares = [] }

-- A middleware that logs a number before the call.
abbrev logging : ℕ → Bus.Middleware ℕ Log ℕ
logging n next c log = next c (log ++ n ∷ [])

abbrev logging_bus : InMemoryBus ℕ Log ℕ
logging_bus = record { handlers = []; middlewares = logging 1 ∷ logging 2 ∷ [] }

abbrev shipped : Value ℕ
shipped = record { dynamic_type = pointer ship; payload = 9 }

dispatch-register_example :
    Bus.dispatch no_method
      (plain "n")
      (Bus.register no_method (plain "m") zero_value (pointer ship) echo logging_bus)
      (some shipped)
    ≡ (if str_eq
          (name_of_type no_method zero_value (pointer ship))
          (name_of no_method (some shipped))
        then wrapped_by logging_bus.middlewares
            (Bus.typed (plain "m") (pointer ship) echo)
            (some shipped)
        else Bus.dispatch no_method (plain "n") logging_bus (some shipped))
dispatch-register_example =
    dispatch-register no_method zero_value (plain "m") (plain "n") (pointer ship) (some shipped)
      echo logging_bus

dispatch-register_typed_example :
    Bus.dispatch no_method
      (plain "n")
      (Bus.register no_method (plain "m") zero_value (pointer ship) echo empty_bus)
      (some shipped)
    ≡ echo 9
dispatch-register_typed_example =
    dispatch-register_typed no_method zero_value (plain "m") (plain "n") (pointer ship) 9 echo
      empty_bus refl refl

-- Two handlers of one name: the first counts, the second fails.
abbrev counting : Eventbus.DispatchFunc ℕ ℕ
counting e s = (suc s, none)

abbrev failing : Eventbus.DispatchFunc ℕ ℕ
failing e s = (s, some (plain "down"))

abbrev router : Router ℕ ℕ
router = record {
  middlewares = [];
  handlers = ("ok", counting ∷ []) ∷ ("bad", counting ∷ failing ∷ counting ∷ []) ∷ [];
  on_unknown = none;
}

abbrev good_mail : Envelope ℕ
good_mail = record { event = 1; name = "ok"; raw = some 10 }

abbrev bad_mail : Envelope ℕ
bad_mail = record { event = 2; name = "bad"; raw = some 11 }

abbrev mails : List (Signal ℕ)
mails = envelope bad_mail ∷ envelope good_mail ∷ closed ∷ []

run_loop-settle_all_example :
    let (s, log) = settle_all router (delivered mails) 0 in
    run_loop router mails (record { state = 0; log = [] })
    ≡ (record { state = s; log = [] ++ log }, ending mails)
run_loop-settle_all_example = run_loop-settle_all router mails (record { state = 0; log = [] })

bad_handlers : handlers_of "bad" router ≡ (counting ∷ []) ++ failing ∷ counting ∷ []
unfolding handlers_of lookup
bad_handlers = refl

counting_run : run_handlers (counting ∷ []) 2 0 ≡ (1, none)
unfolding run_handlers
counting_run = refl

abbrev step : ℕ → Action Log
step n log = (log ++ n ∷ [], none)

abbrev stuck : Action Log
stuck log = (log, some (plain "stuck"))

abbrev hooks : Lifecycle Log
hooks = record {
  starts = record { name = "a"; run = step 1 } ∷ record { name = "b"; run = stuck } ∷ [];
  stops = record { name = "a"; run = step 2 } ∷ record { name = "b"; run = stuck } ∷ [];
}

first_hook_run :
    Lifecycle.start
      (record { starts = record { name = "a"; run = step 1 } ∷ []; stops = hooks.stops })
      []
    ≡ (1 ∷ [], none)
unfolding Lifecycle.start Lifecycle.start_loop
first_hook_run = refl

abbrev quoted : String → String
quoted s = s

abbrev adapters : AdapterRegistry ℕ
adapters = record { factories = ("cache", ("redis", 1) ∷ []) ∷ [] }

abbrev not_found_error : Error
not_found_error = wrapped "bootstrap: adapter not found: kind=mail" Registry.err_adapter_not_found

-- A module that logs its start and its stop, and one that does not start.
abbrev service : ℕ → Module Log ℕ ℕ
service n = record { name = "service"; start = λ s. ((s.0, s.1 ++ n ∷ []), none); stop = step n }

abbrev refusing : Module Log ℕ ℕ
refusing = record { name = "refusing"; start = λ s. (s, some (plain "no")); stop = step 99 }

abbrev container : Container Log ℕ ℕ
container = record {
  lifecycle = record { starts = []; stops = [] };
  values = [];
  registry = record { factories = [] };
  shutdown_timeout = pos 1;
}

abbrev started : Container Log ℕ ℕ
started = record container {
  lifecycle = record {
    starts = [];
    stops =
        record { name = "service"; run = step 1 } ∷ record { name = "service"; run = step 2 } ∷ [];
  };
}

started_run :
    start_modules quoted (service 1 ∷ service 2 ∷ []) (container, [])
    ≡ ((started, 1 ∷ 2 ∷ []), none)
unfolding start_modules Lifecycle.append_stop
started_run = refl

run_unwinds_example :
    App.run quoted
      (λ w. w)
      ((service 1 ∷ service 2 ∷ []) ++ refusing ∷ service 3 ∷ [])
      (container, [])
    ≡ (
      (started, unwound ([] ++ stop_hooks (service 1 ∷ service 2 ∷ [])) (1 ∷ 2 ∷ [])),
      some (start_error quoted "refusing" (plain "no")),
    )
run_unwinds_example =
    run_unwinds quoted (λ w. w) (service 1 ∷ service 2 ∷ []) (service 3 ∷ []) refusing
      (container, []) (started, 1 ∷ 2 ∷ []) (started, 1 ∷ 2 ∷ []) (plain "no")
      (λ s. refl, (λ s. refl, tt)) (λ s. refl) started_run refl
