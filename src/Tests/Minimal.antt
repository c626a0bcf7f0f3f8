-- ===== src/Tests/Minimal.antt =====
-- The worked example: an account with an overdraft limit, and a shop whose broker is a list of sent
-- events, or fails.
use go_ddd_core.Prelude.{ℕ, ◌≡◌, refl, arith, ◌⊎◌, none, some, List, [], ◌∷◌, ◌++◌}
use go_ddd_core.Prelude.Int.{pos, negsuc, ◌-ℤ◌, ◌≤ℤ◌, ◌<ℤ◌, ◌+ℤ◌}
use go_ddd_core.Prelude.Int64.{add64, sub64, neg64, wrap}
use go_ddd_core.Prelude.Dict.{Dict}
use go_ddd_core.Errors.{Error, plain, ok}
use go_ddd_core.Domain.{
  new_base_aggregate, new_base_entity, record_event, increment_version, domain_events,
}
use go_ddd_core.Minimal.Account
use go_ddd_core.Minimal.Account.{
  Account, AccountEvent, status_open, status_closed, withdraw, withdraw_open, deposit,
}
use go_ddd_core.Minimal.Account.Laws.{
  Call, call_withdraw, call_deposit, call_close, call_freeze, call_set_overdraft_limit, execute,
  execute_all, Recorded, replay, view, execute_atomic, execute_all-history,
}
use go_ddd_core.Minimal.Account.Overdraft.{withdraw_solvent, withdraw_accepts, withdraw_wraps}
use go_ddd_core.Minimal.Order
use go_ddd_core.Minimal.Order.{Item, Order, OrderPlaced, status_placed, place, new_order_placed}
use go_ddd_core.Minimal.Order.Laws.{exact_total}
use go_ddd_core.Minimal.Shop.{
  memrepo, PlaceOrderCommand, Shop, Publisher, handle_place_order, handle_get_order,
}
use go_ddd_core.Minimal.Shop.Laws.{
  placed_view, placed_event, handle_get_order-handle_place_order, handle_place_order-published,
}

-- An open account with a balance of 100 and a limit of 50.
abbrev savings : Account
savings = record {
  base = record { entity = record { id = "a" }; events = []; version = pos 3 };
  status = status_open;
  balance = pos 100;
  overdraft = pos 50;
}

abbrev closed_account : Account
closed_account = record savings { status = status_closed }

-- The deepest debt that the largest limit allows.
abbrev in_debt : Account
in_debt = record savings {
  balance = negsuc 9223372036854775806;
  overdraft = pos 9223372036854775807;
}

execute_atomic_example :
    ((e : Error) × (execute 0 (call_withdraw (pos 150) "e") savings ≡ (savings, some e)))
    ⊎ ((e : AccountEvent) × ((execute 0 (call_withdraw (pos 150) "e") savings).1 ≡ none)
        × Recorded savings e (execute 0 (call_withdraw (pos 150) "e") savings).0)
execute_atomic_example = execute_atomic 0 (call_withdraw (pos 150) "e") savings

withdraw_run : (withdraw 0 (pos 150) "e" savings).1 ≡ none
unfolding withdraw withdraw_open sub64 wrap ◌-ℤ◌ neg64
withdraw_run = refl

withdraw_solvent_example :
    ((withdraw 0 (pos 150) "e" savings).0.balance ≡ pos 100 -ℤ pos 150)
    × (pos 0 -ℤ pos 50 ≤ℤ pos 100 -ℤ pos 150)
unfolding ◌-ℤ◌
withdraw_solvent_example =
    withdraw_solvent 0 (pos 150) "e" savings refl (ground arith) (ground arith) (ground arith)
      withdraw_run

withdraw_accepts_example :
    ((withdraw 0 (pos 150) "e" savings).1 ≡ none)
    × ((withdraw 0 (pos 150) "e" savings).0.balance ≡ pos 100 -ℤ pos 150)
unfolding ◌-ℤ◌
withdraw_accepts_example =
    withdraw_accepts 0 (pos 150) "e" savings refl (ground arith) (ground arith) (ground arith)
      (ground arith) (ground arith)

withdraw_wraps_example :
    ((withdraw 0 (pos 2) "e" in_debt).1 ≡ none)
    × (pos 0 <ℤ (withdraw 0 (pos 2) "e" in_debt).0.balance)
unfolding ◌-ℤ◌
withdraw_wraps_example =
    withdraw_wraps 0 (pos 2) "e" in_debt refl (ground arith) (ground arith) (ground arith)
      (ground arith) (ground arith) (ground arith)

abbrev calls : List Call
calls =
    call_set_overdraft_limit (pos 10) "e2"
    ∷ call_withdraw (pos 200) "e3"
    ∷ call_deposit (pos 7) "e4"
    ∷ call_freeze "audit" "e5"
    ∷ call_close "e6"
    ∷ []

abbrev opened : Account
opened = record {
  base = record {
    entity = record { id = "a" };
    events = Account.new_account_opened 0 "e1" "a" (pos 1) (pos 100) ∷ [];
    version = pos 1;
  };
  status = status_open;
  balance = pos 100;
  overdraft = pos 0;
}

opened_run : Account.new 0 "a" (pos 100) "e1" ≡ ok opened
unfolding Account.new new_base_aggregate new_base_entity record_event increment_version add64 wrap
    ◌+ℤ◌
opened_run = refl

execute_all-history_example :
    replay (domain_events (execute_all 0 calls opened).base) (status_closed, pos 0, pos 0)
    ≡ view (execute_all 0 calls opened)
execute_all-history_example =
    execute_all-history 0 "a" (pos 100) "e1" opened calls opened_run (status_closed, pos 0, pos 0)

abbrev two_items : List Item
two_items =
    record { sku = "x"; quantity = pos 2; price_cents = pos 300 }
    ∷ record { sku = "y"; quantity = pos 1; price_cents = pos 50 }
    ∷ []

-- The second item has no quantity.
abbrev bad_items : List Item
bad_items =
    record { sku = "x"; quantity = pos 2; price_cents = pos 300 }
    ∷ record { sku = "y"; quantity = pos 0; price_cents = pos 50 }
    ∷ []

abbrev draft : Order
draft = record {
  base = record { entity = record { id = "o" }; events = []; version = pos 0 };
  customer_id = "c";
  items = [];
  status = Order.status_draft;
  total_cents = pos 0;
}

abbrev command : PlaceOrderCommand
command = record { order_id = "o"; customer_id = "c"; items = two_items }

abbrev Sent : Type 0
Sent = List (List OrderPlaced)

abbrev empty_shop : Shop (Dict ℕ) Sent
empty_shop = record { orders = record { next = 0; cell = λ p. draft }; repo = []; broker = [] }

abbrev send : Publisher Sent
send topic events sent = (sent ++ events ∷ [], none)

abbrev broken : Publisher Sent
broken topic events sent = (sent, some (plain "broker down"))

handle_get_order-handle_place_order_example :
    handle_get_order memrepo "o"
      (handle_place_order memrepo (some broken) "orders" 0 "e" command empty_shop).0
    ≡ ok (placed_view command)
handle_get_order-handle_place_order_example =
    handle_get_order-handle_place_order (some broken) "orders" 0 "e" command empty_shop (refl, refl)

handle_place_order-published_example :
    let (s', result) = handle_place_order memrepo (some send) "orders" 0 "e" command empty_shop in
    (result ≡ ok (record { order_id = "o"; total_cents = wrap (exact_total two_items) }))
    × (s'.broker ≡ (placed_event 0 "e" command ∷ []) ∷ [])
    × (domain_events (s'.orders.cell 0).base ≡ [])
handle_place_order-published_example =
    handle_place_order-published (some send) "orders" 0 "e" command empty_shop
      ((placed_event 0 "e" command ∷ []) ∷ []) (refl, refl) refl
