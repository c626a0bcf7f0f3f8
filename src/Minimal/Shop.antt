-- ===== src/Minimal/Shop.antt =====
-- examples/minimal/application/order and examples/minimal/infra/memrepo: the two use cases over a
-- repository and the in-memory repository. Orders are shared by reference, so they stand in cells: the
-- repository holds references, and the handler clears the events of the order that it has saved. The
-- publisher is a parameter over the state `B` of its broker; its id and clock are arguments.
pub mod Laws
use go_ddd_core.Prelude.{ℕ, suc, String, Option, none, some, List, [], ◌∷◌, ◌==◌, if◌then◌else◌}
use go_ddd_core.Prelude.Int.{ℤ}
use go_ddd_core.Prelude.Dict.{Dict, lookup, insert, erase}
use go_ddd_core.Errors.{Error, Result, ok, err, plain}
use go_ddd_core.Domain.{clear_events, domain_events}
use go_ddd_core.Minimal.Order.{
  Item, OrderPlaced, Order, Status, status_draft, status_placed, new, place,
}

-- The orders in memory: the references below `next` are in use.
pub record Cells : Type 0 where
  pub next : ℕ
  pub cell : ℕ → Order

abbrev pub store : ℕ → Order → Cells → Cells
store p o cells = record cells { cell = λ q. if p == q then o else cells.cell q }

abbrev pub allocate : Order → Cells → Cells
allocate o cells = record (store cells.next o cells) { next = suc cells.next }

-- `domain.ErrNotFound`
abbrev pub err_not_found : Error
err_not_found = plain "domain: aggregate not found"

-- `domain.Repository[*Order, ID]` over the state `R`.
pub record Repository (R : Type 0) : Type 0 where
  pub find_by_id : String → R → Result ℕ
  pub save : Cells → ℕ → R → R × Option Error
  pub delete : String → R → R × Option Error

abbrev pub found : Option ℕ → Result ℕ
found none = err err_not_found
found (some p) = ok p

-- `NewOrderRepository()` and the methods of memrepo.OrderRepository.
unfoldable pub new_order_repository : Dict ℕ
new_order_repository = []

unfoldable pub memrepo : Repository (Dict ℕ)
memrepo = record {
  find_by_id = λ i d. found (lookup i d);
  save = λ cells p d. (insert (cells.cell p).base.entity.id p d, none);
  delete = λ i d. (erase i d, none);
}

pub record PlaceOrderCommand : Type 0 where
  pub order_id : String
  pub customer_id : String
  pub items : List Item

pub record PlaceOrderResult : Type 0 where
  pub order_id : String
  pub total_cents : ℤ

pub record OrderView : Type 0 where
  pub order_id : String
  pub customer_id : String
  pub status : String
  pub total_cents : ℤ
  pub version : ℤ

-- The memory, the repository and the broker.
pub record Shop (R B : Type 0) : Type 0 where
  pub orders : Cells
  pub repo : R
  pub broker : B

abbrev pub status_text : Status → String
status_text status_draft = "draft"
status_text status_placed = "placed"

abbrev pub Publisher : Type 0 → Type 0
Publisher B = String → List OrderPlaced → B → B × Option Error

-- `if h.publisher != nil { ... Publish ... }`
abbrev pub publish :
    {B : Type 0} → Option (Publisher B) → String → List OrderPlaced → B → B × Option Error
publish none topic events b = (b, none)
publish (some f) topic events b = f topic events b

-- What follows `Publish` in `Handle`, for the order at `p`: `ClearEvents` and the result.
abbrev pub after_publish :
    {R B : Type 0}
    → PlaceOrderCommand
    → ℕ
    → Shop R B
    → B × Option Error
    → Shop R B × Result PlaceOrderResult
after_publish cmd p s (b, some e) = (record s { broker = b }, err e)
after_publish cmd p s (b, none) =
    let o = s.orders.cell p in
    let cells = store p (record o { base = clear_events o.base }) s.orders in
    (
      record s { orders = cells; broker = b },
      ok (record { order_id = cmd.order_id; total_cents = (cells.cell p).total_cents }),
    )

module _ {R B : Type 0} (publisher : Option (Publisher B)) (topic : String) where
  -- What follows `Save` in `Handle`.
  abbrev pub after_save :
      PlaceOrderCommand → ℕ → Shop R B → R × Option Error → Shop R B × Result PlaceOrderResult
  after_save cmd p s (r, some e) = (record s { repo = r }, err e)
  after_save cmd p s (r, none) =
      after_publish cmd p (record s { repo = r })
        (publish publisher topic (domain_events (s.orders.cell p).base) s.broker)

module _ {R B : Type 0} (repo : Repository R) (publisher : Option (Publisher B))
    (topic : String) where
  -- What follows `Place` in `Handle`.
  abbrev pub after_place :
      PlaceOrderCommand → Shop R B → Order × Option Error → Shop R B × Result PlaceOrderResult
  after_place cmd s (o, some e) = (record s { orders = allocate o s.orders }, err e)
  after_place cmd s (o, none) =
      let cells = allocate o s.orders in
      after_save publisher topic cmd s.orders.next (record s { orders = cells })
        (repo.save cells s.orders.next s.repo)

  -- `Handle` of PlaceOrderHandler; `event_id` is what `h.ids.New()` returns.
  unfoldable pub handle_place_order :
      ℕ → String → PlaceOrderCommand → Shop R B → Shop R B × Result PlaceOrderResult
  handle_place_order now event_id cmd s =
      after_place cmd s (place now cmd.items event_id (new cmd.order_id cmd.customer_id))

-- `Handle` of GetOrderHandler after `FindByID`.
abbrev pub view_order : Cells → Result ℕ → Result OrderView
view_order cells (err e) = err e
view_order cells (ok p) =
    let o = cells.cell p in
    ok (record {
      order_id = o.base.entity.id;
      customer_id = o.customer_id;
      status = status_text o.status;
      total_cents = o.total_cents;
      version = o.base.version;
    })

module _ {R B : Type 0} (repo : Repository R) where
  -- `Handle` of GetOrderHandler.
  unfoldable pub handle_get_order : String → Shop R B → Result OrderView
  handle_get_order i s = view_order s.orders (repo.find_by_id i s.repo)
