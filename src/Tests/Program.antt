-- ===== src/Tests/Program.antt =====
-- The configuration, the example program and the event store at concrete inputs.
use go_ddd_core.Prelude.{
  ℕ, suc, String, true, false, ◌≡◌, refl, Option, none, some, List, [], ◌∷◌, str_eq, ◌+◌, ◌↔◌,
  if◌then◌else◌,
}
use go_ddd_core.Prelude.Int.{ℤ, pos, ◌+ℤ◌}
use go_ddd_core.Prelude.Int64.{wrap, add64}
use go_ddd_core.Errors.{Error, plain, ok, err, error_is}
use go_ddd_core.Config.{
  Source, Viper, ViperOptions, Program, fire_listeners, new_viper_provider, load, apply_source,
  apply_sources,
}
use go_ddd_core.Config.Laws.{FailsAt, new_viper_provider-FailsAt, noting, fire_listeners_snapshot}
use go_ddd_core.Config.Schema.{Root}
use go_ddd_core.Minimal.Order.{status_draft}
use go_ddd_core.Minimal.Order.Laws.{exact_total}
use go_ddd_core.Minimal.Shop.Laws.{placed_view}
use go_ddd_core.Minimal.Server
use go_ddd_core.Minimal.Server.{
  receive_twice, ended, blocked, value, err_server_closed, receive-listening_ended,
}
use go_ddd_core.Minimal.Wiring.{
  Site, run, OrderBody, Request, post_orders, get_orders, json_result, json_view, command_of, serve,
  serve_all,
}
use go_ddd_core.Minimal.Wiring.Laws.{get_order-serve_all}
use go_ddd_core.Minimal.Wiring.Run.{serving, run-shutdown}
use go_ddd_core.Eventsourcing.{BaseEsAggregate, new_base_es_aggregate, load_history}
use go_ddd_core.Domain.{new_base_aggregate, new_base_entity, increment_version, clear_events}
use go_ddd_core.Eventsourcing.Store.{StreamId, Streams, memory_store, memory_store-IsEventStore}
use go_ddd_core.Eventsourcing.Store.Laws.{load_from-snapshot}

-- A viper that keeps the paths of its files, and cannot read one of them.
abbrev readable : String → List String → List String × Option Error
readable path v = if str_eq path "gone.yaml" then (v, some (plain "no such file")) else (v, none)

abbrev head_or_empty : List String → String
head_or_empty [] = ""
head_or_empty (p ∷ ps) = p

abbrev toy_viper : {X : Type 0} → X → Viper (List String) X ℕ
toy_viper x = record {
  new = [];
  set_env_key_replacer = λ r v. v;
  set_config_file = λ p v. p ∷ v;
  merge_in_config = λ v. readable (head_or_empty v) v;
  on_config_change = λ v. v;
  watch_config = λ v. v;
  set_env_prefix = λ p v. v;
  automatic_env = λ v. v;
  unmarshal = λ v. ok x;
  get = λ p v. 0;
}

abbrev quoted : String → String
quoted s = s

abbrev file : String → Source
file p = record { source_type = "file"; path = p; env_prefix = ""; watch = true }

abbrev options : ViperOptions
options = record {
  sources = file "a.yaml" ∷ file "gone.yaml" ∷ file "b.yaml" ∷ [];
  env_key_replacer = none;
}

abbrev failure : Error
failure = Error.wrapped "config: read file gone.yaml: no such file" (plain "no such file")

abbrev numbers : Viper (List String) ℕ ℕ
numbers = toy_viper 0

new_viper_provider-FailsAt_example :
    (new_viper_provider numbers quoted options ≡ err failure)
    ↔ FailsAt numbers quoted options.sources [] failure
new_viper_provider-FailsAt_example = new_viper_provider-FailsAt numbers quoted options failure

abbrev two_more : ℕ → List ℕ
two_more n = (n + 10) ∷ (n + 20) ∷ []

abbrev listening : Program ℕ (List ℕ)
listening = record { provider = record { v = 0; listeners = 1 ∷ 2 ∷ [] }; state = [] }

fire_listeners_snapshot_example : fire_listeners (noting two_more) listening ≡ record {
  provider = record { v = 0; listeners = 1 ∷ 2 ∷ 11 ∷ 21 ∷ 12 ∷ 22 ∷ [] };
  state = 1 ∷ 2 ∷ [];
}
fire_listeners_snapshot_example = fire_listeners_snapshot two_more listening

abbrev new_site : Site
new_site = record {
  shop = record {
    orders = record {
      next = 0;
      cell = λ _. record {
        base = record { entity = record { id = "" }; events = []; version = pos 0 };
        customer_id = "";
        items = [];
        status = status_draft;
        total_cents = pos 0;
      };
    };
    repo = [];
    broker = tt;
  };
  handled = 0;
}

abbrev body : OrderBody
body = record {
  order_id = "o1";
  customer_id = "c";
  items = record { sku = "s"; quantity = pos 2; price_cents = pos 150 } ∷ [];
}

abbrev requests : List Request
requests =
    post_orders (err (plain "unexpected EOF"))
    ∷ post_orders (ok (record body { order_id = "o2" }))
    ∷ get_orders "o1"
    ∷ []

get_order-serve_all_example :
    let (s1, reply) = serve (λ n. n) (λ n. "id") (post_orders (ok body)) new_site in
    let s2 = serve_all (λ n. n) (λ n. "id") requests s1 in
    (reply
      ≡ json_result 201 (record { order_id = "o1"; total_cents = wrap (exact_total body.items) }))
    × (serve (λ n. n) (λ n. "id") (get_orders "o1") s2
        ≡ (s2, json_view 200 (placed_view (command_of body))))
get_order-serve_all_example =
    get_order-serve_all (λ n. n) (λ n. "id") body requests new_site (refl, refl)
      (tt, (refl, (tt, tt)))

abbrev http_config : Root ℕ
http_config = record {
  app = record { name = "m"; env = "dev"; version = "0"; instance_id = ""; description = "" };
  logger = record { driver = "slog"; level = "info"; format = "json" };
  observability = record {
    driver = "";
    endpoint = "";
    insecure = false;
    sample_ratio = 0;
    service_name = "";
    metric_prefix = "";
  };
  http = record {
    driver = "stdlib";
    addr = ":8080";
    read_timeout = pos 5;
    write_timeout = pos 10;
    shutdown_timeout = pos 10;
  };
  grpc = record { driver = ""; addr = ""; shutdown_timeout = pos 0 };
  graphql = record { driver = ""; path = ""; playground = false };
  database = record {
    driver = "";
    dsn = "";
    max_open_conns = pos 0;
    max_idle_conns = pos 0;
    conn_max_lifetime = pos 0;
  };
  cache = record { driver = ""; endpoint = ""; namespace = ""; ttl = pos 0 };
  messaging = record { driver = ""; brokers = []; consumer_group = ""; options = [] };
  storage = record { driver = ""; endpoint = ""; bucket = ""; region = "" };
}

-- The state of the *http.Server is the number of calls of Shutdown.
abbrev counted_shutdown : ℤ → ℕ → ℕ × Option Error
counted_shutdown timeout n = (suc n, none)

run-shutdown_example :
    run (toy_viper http_config) quoted counted_shutdown (λ w. w) "" new_site 0 ≡ (
      some (record {
        server =
            record (serving
              (toy_viper http_config)
              quoted
              counted_shutdown
              (λ w. w)
              new_site
              0
              http_config).server { srv = 1 };
        site = new_site;
      }),
      none,
    )
unfolding new_viper_provider apply_sources apply_source load Server.start Server.new
run-shutdown_example =
    run-shutdown (toy_viper http_config) quoted counted_shutdown (λ w. w) "" new_site 0 1
      (record { v = "examples/minimal/config.yaml" ∷ []; listeners = [] }) http_config none refl
      refl refl

receive-listening_ended_example :
    let s : Server.Server ℕ = (Server.start (Server.new ":8080" (pos 10) 0)).0 in
    (receive_twice (Server.listening_ended (some err_server_closed) s) ≡ some (ended, ended))
    × (receive_twice (Server.listening_ended (some (plain "address already in use")) s)
        ≡ some (value (plain "address already in use"), blocked))
unfolding error_is
receive-listening_ended_example =
    receive-listening_ended {H = ℕ} ":8080" (pos 10) 0 (plain "address already in use") refl

abbrev stream : StreamId
stream = record { aggregate_type = "account"; aggregate_id = "a" }

abbrev stored : Streams ℕ
stored st = 5 ∷ 6 ∷ []

abbrev add_event : ℕ → ℕ → ℕ × Option Error
add_event e total = (total + e, none)

-- The aggregate with the first event, as a snapshot.
abbrev snapshot : BaseEsAggregate String ℕ ℕ
snapshot = record {
  base = record { entity = record { id = "a" }; events = []; version = pos 1 };
  state = 5;
}

load_from-snapshot_example :
    (pos 2 ≡ pos 2)
    × (load_history add_event (5 ∷ 6 ∷ []) (new_base_es_aggregate "a" 0)
        ≡ load_history add_event (6 ∷ []) snapshot)
unfolding memory_store load_history new_base_es_aggregate new_base_aggregate new_base_entity
    increment_version clear_events add64 wrap ◌+ℤ◌
load_from-snapshot_example =
    load_from-snapshot memory_store (λ (s : Streams ℕ) st. s st) memory_store-IsEventStore add_event
      "a" 0 stream stored (5 ∷ []) (6 ∷ []) (5 ∷ 6 ∷ []) (6 ∷ []) (pos 2) (pos 2) snapshot refl refl
      refl refl
