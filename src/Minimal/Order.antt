-- ===== src/Minimal/Order.antt =====
-- examples/minimal/domain/order: the Order aggregate. Prices and totals are int64 values in cents.
pub mod Laws
use go_ddd_core.Prelude.{
  ℕ, String, Bool, true, false, Option, none, some, List, [], ◌∷◌, is_empty, if◌then◌else◌,
}
use go_ddd_core.Prelude.Int.{ℤ, pos, leb_ℤ}
use go_ddd_core.Prelude.Int64.{add64, mul64}
use go_ddd_core.Errors.{Error, new_rule_violation}
use go_ddd_core.Domain.{
  BaseEvent, new_base_event, BaseAggregate, new_base_aggregate, record_event, increment_version,
}

pub data Status : Type 0 where
  status_draft : Status
  status_placed : Status

pub record Item : Type 0 where
  pub sku : String
  pub quantity : ℤ
  pub price_cents : ℤ

-- `OrderPlaced`
pub record OrderPlaced : Type 0 where
  pub base : BaseEvent
  pub customer_id : String
  pub total_cents : ℤ

unfoldable pub new_order_placed : ℕ → String → String → ℤ → String → ℤ → OrderPlaced
new_order_placed now event_id i v customer total = record {
  base = new_base_event now event_id "order.placed" i "Order" v;
  customer_id = customer;
  total_cents = total;
}

pub record Order : Type 0 where
  pub base : BaseAggregate String OrderPlaced
  pub customer_id : String
  pub items : List Item
  pub status : Status
  pub total_cents : ℤ

-- `New(id, customerID)`
unfoldable pub new : String → String → Order
new i customer = record {
  base = new_base_aggregate i;
  customer_id = customer;
  items = [];
  status = status_draft;
  total_cents = pos 0;
}

abbrev pub is_draft : Status → Bool
is_draft status_draft = true
is_draft status_placed = false

-- The loop of `Place` over the items: the total, or none for a quantity that is not positive.
unfoldable pub total_loop : List Item → ℤ → Option ℤ
total_loop [] total = some total
total_loop (it ∷ items) total =
    let rest = total_loop items (add64 total (mul64 it.price_cents it.quantity)) in
    if leb_ℤ it.quantity (pos 0) then none else rest

-- What follows the loop.
abbrev pub place_total : ℕ → List Item → String → Order → Option ℤ → Order × Option Error
place_total now items event_id o none =
    (o, some (new_rule_violation "ITEM_INVALID_QTY" "item quantity must be positive"))
place_total now items event_id o (some total) =
    let base = increment_version o.base in
    let placed = new_order_placed now event_id base.entity.id base.version o.customer_id total in
    (
      record o {
        base = record_event placed base;
        items = items;
        status = status_placed;
        total_cents = total;
      },
      none,
    )

-- `o.Place(items, eventID)`
unfoldable pub place : ℕ → List Item → String → Order → Order × Option Error
place now items event_id o =
    if is_draft o.status
    then (if is_empty items
        then (o, some (new_rule_violation "ORDER_EMPTY" "order must have at least one item"))
        else place_total now items event_id o (total_loop items (pos 0)))
    else (o, some (new_rule_violation "ORDER_NOT_DRAFT" "order is not in draft state"))
