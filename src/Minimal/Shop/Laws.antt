-- ===== src/Minimal/Shop/Laws.antt =====
-- What the use cases promise over the in-memory repository.
use go_ddd_core.Prelude.{
  ℕ, String, true, false, ◌≡◌, refl, ◌∙◌, Option, none, some, [], ◌∷◌, is_empty, not, ◌&&◌, arith,
  eq_refl, ◌==◌,
}
use go_ddd_core.Prelude.Int.{pos, ◌+ℤ◌}
use go_ddd_core.Prelude.Int64.{wrap, add64}
use go_ddd_core.Prelude.Dict.{Dict, lookup, insert, lookup-insert}
use go_ddd_core.Errors.{Error, ok, err}
use go_ddd_core.Domain.{
  domain_events, clear_events, new_base_aggregate, new_base_entity, record_event, increment_version,
}
use go_ddd_core.Minimal.Order.{
  OrderPlaced, Order, new, place, place_total, total_loop, new_order_placed,
}
use go_ddd_core.Minimal.Order.Laws.{exact_total, all_positive, loop_from_zero, place_refused}
use go_ddd_core.Minimal.Shop.{
  allocate, memrepo, PlaceOrderCommand, OrderView, Shop, Publisher, publish, after_publish,
  handle_place_order, handle_get_order,
}

-- The view of an order that has been placed from a command.
abbrev pub placed_view : PlaceOrderCommand → OrderView
placed_view cmd = record {
  order_id = cmd.order_id;
  customer_id = cmd.customer_id;
  status = "placed";
  total_cents = wrap (exact_total cmd.items);
  version = pos 1;
}

abbrev pub Acceptable : PlaceOrderCommand → Type 0
Acceptable cmd = (is_empty cmd.items ≡ false) × (all_positive cmd.items ≡ true)

-- The order that such a command makes, with its event pending.
abbrev pub placed_order : ℕ → String → PlaceOrderCommand → Order
placed_order now event_id cmd =
    (place_total now cmd.items event_id (new cmd.order_id cmd.customer_id)
      (some (wrap (exact_total cmd.items)))).0

place_fresh :
    (now : ℕ) (event_id : String) (cmd : PlaceOrderCommand)
    → Acceptable cmd
    → place now cmd.items event_id (new cmd.order_id cmd.customer_id)
      ≡ (placed_order now event_id cmd, none)
unfolding place new
place_fresh now event_id cmd (n, h) =
    let sum : total_loop cmd.items (pos 0) ≡ some (wrap (exact_total cmd.items)) =
      loop_from_zero cmd.items ∙ rw h refl in
    rw (n, sum) refl

same : (n : ℕ) → (n == n) ≡ true
same n = ground arith

-- The shop after the order has been saved, before its events are published.
abbrev pub saved : {B : Type 0} → ℕ → String → PlaceOrderCommand → Shop (Dict ℕ) B → Shop (Dict ℕ) B
saved now event_id cmd s = record s {
  orders = allocate (placed_order now event_id cmd) s.orders;
  repo = insert cmd.order_id s.orders.next s.repo;
}

-- The event of that order.
abbrev pub placed_event : ℕ → String → PlaceOrderCommand → OrderPlaced
placed_event now event_id cmd =
    new_order_placed now event_id cmd.order_id (pos 1) cmd.customer_id
      (wrap (exact_total cmd.items))

module _ {B : Type 0} (publisher : Option (Publisher B)) (topic : String) where
  pub handle_place_order-saved :
      (now : ℕ) (event_id : String) (cmd : PlaceOrderCommand) (s : Shop (Dict ℕ) B)
      → Acceptable cmd
      → handle_place_order memrepo publisher topic now event_id cmd s
        ≡ after_publish cmd s.orders.next
            (saved now event_id cmd s)
            (publish publisher topic (placed_event now event_id cmd ∷ []) s.broker)
  unfolding handle_place_order memrepo domain_events new new_base_aggregate record_event
      increment_version add64 new_base_entity wrap ◌+ℤ◌
  handle_place_order-saved now event_id cmd s h =
      rw (place_fresh now event_id cmd h, same s.orders.next) refl

  view_saved :
      (now : ℕ) (event_id : String) (cmd : PlaceOrderCommand) (s : Shop (Dict ℕ) B)
      (r : B × Option Error)
      → handle_get_order memrepo cmd.order_id
          (after_publish cmd s.orders.next (saved now event_id cmd s) r).0
        ≡ ok (placed_view cmd)
  unfolding handle_get_order memrepo new new_base_aggregate record_event increment_version add64
      new_base_entity clear_events wrap ◌+ℤ◌
  view_saved now event_id cmd s (b, none) =
      rw
        (
          lookup-insert cmd.order_id cmd.order_id s.orders.next s.repo,
          eq_refl cmd.order_id,
          same s.orders.next,
        )
        refl
  view_saved now event_id cmd s (b, some e) =
      rw
        (
          lookup-insert cmd.order_id cmd.order_id s.orders.next s.repo,
          eq_refl cmd.order_id,
          same s.orders.next,
        )
        refl

  -- With the in-memory repository, after a command with items, all of a positive quantity, has been
  -- handled, the query for its id returns the placed order with version 1 and the exact total reduced to
  -- int64, also when the publisher failed.
  pub handle_get_order-handle_place_order :
      (now : ℕ) (event_id : String) (cmd : PlaceOrderCommand) (s : Shop (Dict ℕ) B)
      → Acceptable cmd
      → handle_get_order memrepo cmd.order_id
          (handle_place_order memrepo publisher topic now event_id cmd s).0
        ≡ ok (placed_view cmd)
  handle_get_order-handle_place_order now event_id cmd s h =
      rw (handle_place_order-saved now event_id cmd s h) (view_saved now event_id cmd s _)

  pending_published :
      (now : ℕ) (event_id : String) (cmd : PlaceOrderCommand) (s : Shop (Dict ℕ) B) (b : B)
      → let (s', result) = after_publish cmd s.orders.next (saved now event_id cmd s) (b, none) in
        (result
          ≡ ok (record { order_id = cmd.order_id; total_cents = wrap (exact_total cmd.items) }))
        × (domain_events (s'.orders.cell s.orders.next).base ≡ [])
  unfolding domain_events clear_events
  pending_published now event_id cmd s b = rw (same s.orders.next) (refl, refl)

  -- With the in-memory repository, a command with items, all of a positive quantity, publishes the one
  -- event of the order. If that succeeds, or there is no publisher, the command returns the id and the
  -- total, and the stored order has no pending event left.
  pub handle_place_order-published :
      (now : ℕ) (event_id : String) (cmd : PlaceOrderCommand) (s : Shop (Dict ℕ) B) (b : B)
      → Acceptable cmd
      → publish publisher topic (placed_event now event_id cmd ∷ []) s.broker ≡ (b, none)
      → let (s', result) = handle_place_order memrepo publisher topic now event_id cmd s in
        (result
          ≡ ok (record { order_id = cmd.order_id; total_cents = wrap (exact_total cmd.items) }))
        × (s'.broker ≡ b)
        × (domain_events (s'.orders.cell s.orders.next).base ≡ [])
  handle_place_order-published now event_id cmd s b h p =
      let (q, r) = pending_published now event_id cmd s b in
      rw (handle_place_order-saved now event_id cmd s h, p) (q, refl, r)

  pending_unpublished :
      (now : ℕ) (event_id : String) (cmd : PlaceOrderCommand) (s : Shop (Dict ℕ) B)
      → let s' = saved now event_id cmd s in
        (lookup cmd.order_id s'.repo ≡ some s.orders.next)
        × (domain_events (s'.orders.cell s.orders.next).base ≡ placed_event now event_id cmd ∷ [])
  unfolding domain_events new new_base_aggregate record_event increment_version add64
      new_base_entity wrap ◌+ℤ◌
  pending_unpublished now event_id cmd s =
      rw
        (
          lookup-insert cmd.order_id cmd.order_id s.orders.next s.repo,
          eq_refl cmd.order_id,
          same s.orders.next,
        )
        (refl, refl)

  -- If publishing the event of such a command fails, the command returns the publisher's error although
  -- the in-memory repository has stored the order, and the stored order keeps its event pending.
  handle_place_order-unpublished :
      (now : ℕ) (event_id : String) (cmd : PlaceOrderCommand) (s : Shop (Dict ℕ) B) (b : B)
      (e : Error)
      → Acceptable cmd
      → publish publisher topic (placed_event now event_id cmd ∷ []) s.broker ≡ (b, some e)
      → let (s', result) = handle_place_order memrepo publisher topic now event_id cmd s in
        (result ≡ err e)
        × (lookup cmd.order_id s'.repo ≡ some s.orders.next)
        × (domain_events (s'.orders.cell s.orders.next).base ≡ placed_event now event_id cmd ∷ [])
  handle_place_order-unpublished now event_id cmd s b e h p =
      let (q, r) = pending_unpublished now event_id cmd s in
      rw (handle_place_order-saved now event_id cmd s h, p) (refl, q, r)

  -- A command without items, or with an item whose quantity is not positive, returns an error and
  -- leaves the in-memory repository and the broker as they were.
  handle_place_order-refused :
      (now : ℕ) (event_id : String) (cmd : PlaceOrderCommand) (s : Shop (Dict ℕ) B)
      → (not (is_empty cmd.items) && all_positive cmd.items) ≡ false
      → (e : Error) × ((handle_place_order memrepo publisher topic now event_id cmd s).1 ≡ err e)
        × ((handle_place_order memrepo publisher topic now event_id cmd s).0.repo ≡ s.repo)
        × ((handle_place_order memrepo publisher topic now event_id cmd s).0.broker ≡ s.broker)
  unfolding handle_place_order new
  handle_place_order-refused now event_id cmd s h =
      let (e, p) = place_refused now cmd.items event_id (new cmd.order_id cmd.customer_id) h in
      (e, rw p refl, rw p refl, rw p refl)
