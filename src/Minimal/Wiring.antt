-- ===== src/Minimal/Wiring.antt =====
-- examples/minimal/cmd/main.go: the two routes over the two buses, the use cases and the in-memory
-- repository, and `run`. What net/http does with a request before a handler, and what it does with the
-- handler's reply, is not modelled: a request is its decoded body or path value. The clock and the
-- generator of identifiers are read once for each command: `clock` and `ids` are their n-th readings.
pub mod Laws
pub mod Run
use Prim.Native.String.{◌++◌}
use go_ddd_core.Prelude.{
  ℕ, suc, String, false, ◌||◌, Option, none, some, List, [], ◌∷◌, str_eq, if◌then◌else◌,
}
use go_ddd_core.Prelude.Int.{ℤ}
use go_ddd_core.Prelude.Dict.{Dict}
use go_ddd_core.Errors.{Error, wrapped, error_text, Result, ok, err}
use go_ddd_core.Bus
use go_ddd_core.Bus.{GoType, named, pointer, type_eq, Value, InMemoryBus, Effect}
use go_ddd_core.Command
use go_ddd_core.Query
use go_ddd_core.Config.{Source, ViperOptions, ViperProvider, Viper, new_viper_provider, load}
use go_ddd_core.Config.Schema.{Root}
use go_ddd_core.Bootstrap.App
use go_ddd_core.Bootstrap.App.{Container, Module, module_func}
use go_ddd_core.Minimal.Order.{Item}
use go_ddd_core.Minimal.Shop.{
  memrepo, new_order_repository, PlaceOrderCommand, PlaceOrderResult, OrderView, Shop,
  handle_place_order, handle_get_order,
}
use go_ddd_core.Minimal.Server
use go_ddd_core.Minimal.Server.{Server}

-- The shop, and the number of commands that have been handled. There is no broker.
pub record Site : Type 0 where
  pub shop : Shop (Dict ℕ) (Unit {0})
  pub handled : ℕ

abbrev package_path : String
package_path = "github.com/slam0504/go-ddd-core/examples/minimal/application/order"

-- `PlaceOrderCommand` and `GetOrderQuery`, of the package application/order of the example.
abbrev pub place_order_type : GoType
place_order_type = named package_path "PlaceOrderCommand"

abbrev pub get_order_type : GoType
get_order_type = named package_path "GetOrderQuery"

-- `CommandName()` and `QueryName()`
unfoldable pub command_name : GoType → PlaceOrderCommand → Option String
command_name t c =
    if type_eq t place_order_type || type_eq t (pointer place_order_type)
    then some "order.place"
    else none

pub record GetOrderQuery : Type 0 where
  pub order_id : String

unfoldable pub query_name : GoType → GetOrderQuery → Option String
query_name t q =
    if type_eq t get_order_type || type_eq t (pointer get_order_type)
    then some "order.get"
    else none

abbrev pub zero_command : GoType → PlaceOrderCommand
zero_command t = record { order_id = ""; customer_id = ""; items = [] }

abbrev pub zero_query : GoType → GetOrderQuery
zero_query t = record { order_id = "" }

-- The body of `POST /orders`.
pub record OrderBody : Type 0 where
  pub order_id : String
  pub customer_id : String
  pub items : List Item

-- A request for one of the two routes; a body comes as what the JSON decoder makes of it.
pub data Request : Type 0 where
  post_orders : Result OrderBody → Request
  get_orders : String → Request

-- `http.Error(w, text, status)`, or what `writeJSON` writes, before it is encoded.
pub data Response : Type 0 where
  http_error : String → ℕ → Response
  json_result : ℕ → PlaceOrderResult → Response
  json_view : ℕ → OrderView → Response

abbrev pub command_of : OrderBody → PlaceOrderCommand
command_of b = record { order_id = b.order_id; customer_id = b.customer_id; items = b.items }

module _ (clock : ℕ → ℕ) (ids : ℕ → String) where
  -- The handlers of the use cases over the site: `NewPlaceOrderHandler(repo, nil, "order.events", ids)` and
  -- `NewGetOrderHandler(repo)`.
  unfoldable pub place : PlaceOrderCommand → Effect Site PlaceOrderResult
  place cmd s =
      let (shop, r) =
        handle_place_order memrepo none "order.events" (clock s.handled) (ids s.handled) cmd
          s.shop in
      (record { shop = shop; handled = suc s.handled }, r)

  unfoldable pub view : GetOrderQuery → Effect Site OrderView
  view q s = (s, handle_get_order memrepo q.order_id s.shop)

  -- `cmdBus` and `qryBus` of `run`.
  unfoldable pub command_bus : InMemoryBus PlaceOrderCommand Site PlaceOrderResult
  command_bus =
      Command.register command_name zero_command place_order_type place (Bus.new_in_memory_bus [])

  unfoldable pub query_bus : InMemoryBus GetOrderQuery Site OrderView
  query_bus = Query.register query_name zero_query get_order_type view (Query.new_in_memory_bus [])

  abbrev pub created : Site × Result PlaceOrderResult → Site × Response
  created (s, err e) = (s, http_error (error_text e) 400)
  created (s, ok r) = (s, json_result 201 r)

  abbrev pub shown : Site × Result OrderView → Site × Response
  shown (s, err e) = (s, http_error (error_text e) 404)
  shown (s, ok v) = (s, json_view 200 v)

  -- The two handlers of `registerRoutes`.
  unfoldable pub post_order : Result OrderBody → Site → Site × Response
  post_order (err e) s = (s, http_error (error_text e) 400)
  post_order (ok body) s = created (
      Command.dispatch command_name command_bus
        (some (record { dynamic_type = place_order_type; payload = command_of body })) s)

  unfoldable pub get_order : String → Site → Site × Response
  get_order i s = shown (
      Query.dispatch query_name query_bus
        (some (record { dynamic_type = get_order_type; payload = record { order_id = i } })) s)

  unfoldable pub serve : Request → Site → Site × Response
  serve (post_orders body) s = post_order body s
  serve (get_orders i) s = get_order i s

  -- The site after requests, one after the other.
  unfoldable pub serve_all : List Request → Site → Site
  serve_all [] s = s
  serve_all (r ∷ rs) s = serve_all rs (serve r s).0

-- `cfgPath`, of the environment variable CONFIG_PATH.
abbrev pub config_path : String → String
config_path env = if str_eq env "" then "examples/minimal/config.yaml" else env

abbrev pub main_options : String → ViperOptions
main_options env = record {
  sources =
      record { source_type = "file"; path = config_path env; env_prefix = ""; watch = false }
      ∷ record { source_type = "env"; path = ""; env_prefix = "APP"; watch = false }
      ∷ [];
  env_key_replacer = none;
}

-- The program: the server, and whatever serves its routes meanwhile.
pub record Running (H : Type 0) : Type 0 where
  pub server : Server H
  pub site : Site

module _ {H V F A : Type 0} (viper : Viper V (Root F) A) (quote : String → String)
    (shutdown : ℤ → H → H × Option Error) (wait : Running H → Running H) where
  abbrev pub start_server : Running H → Running H × Option Error
  start_server w = let (s, e) = Server.start w.server in (record w { server = s }, e)

  abbrev pub stop_server : Running H → Running H × Option Error
  stop_server w = let (s, e) = Server.stop shutdown w.server in (record w { server = s }, e)

  -- The module "http".
  unfoldable pub http_module : Module (Running H) (Unit {0}) (Unit {0})
  http_module =
      module_func "http" (some (λ s. let (w, e) = start_server s.1 in ((s.0, w), e)))
        (some stop_server)

  abbrev pub run_app : Site → H → Root F → Option (Running H) × Option Error
  run_app site srv cfg =
      let server = Server.new cfg.http.addr cfg.http.shutdown_timeout srv in
      let w : Running H = record { server = server; site = site } in
      let (s, e) =
        App.run quote wait (http_module ∷ []) (App.new none cfg.http.shutdown_timeout, w) in
      (some s.1, e)

  abbrev pub with_config : Site → H → Result (Root F) → Option (Running H) × Option Error
  with_config site srv (err e) = (none, some (wrapped ("unmarshal config: " ++ error_text e) e))
  with_config site srv (ok cfg) = run_app site srv cfg

  abbrev pub with_provider : Site → H → Result (ViperProvider V) → Option (Running H) × Option Error
  with_provider site srv (err e) = (none, some (wrapped ("load config: " ++ error_text e) e))
  with_provider site srv (ok p) = with_config site srv (load viper quote p)

  -- `run()`: the program afterwards, if it came to start, and the error. `wait` is what happens until the
  -- signal comes.
  unfoldable pub run : String → Site → H → Option (Running H) × Option Error
  run env site srv = with_provider site srv (new_viper_provider viper quote (main_options env))
