-- ===== src/Minimal/Wiring/Laws.antt =====
-- What the two routes of examples/minimal/cmd/main.go do together.
use go_ddd_core.Prelude.{
  ℕ, ◌≤◌, ◌<◌, arith, ◌≡◌, refl, ap, ◌∙◌, sym, subst, String, true, false, Option, none, some, List,
  [], ◌∷◌, All, Bool-cases, inl, inr, str_eq, eq_refl, ◌==◌, is_empty,
}
use go_ddd_core.Prelude.Int.{pos}
use go_ddd_core.Prelude.Dict.{Dict, lookup, lookup-insert}
use go_ddd_core.Errors.{Error, Result, ok, err}
use go_ddd_core.Domain.{new_base_aggregate, new_base_entity, record_event, increment_version}
use go_ddd_core.Bus
use go_ddd_core.Bus.Laws.{dispatch-register_typed}
use go_ddd_core.Command
use go_ddd_core.Query
use go_ddd_core.Minimal.Order.{
  Item, Order, is_draft, new, place as place_items, place_total, total_loop,
}
use go_ddd_core.Minimal.Order.Laws.{exact_total}
use go_ddd_core.Prelude.Int64.{wrap}
use go_ddd_core.Minimal.Shop.{
  Cells, memrepo, PlaceOrderCommand, PlaceOrderResult, OrderView, Shop, view_order, found,
  after_place, handle_place_order, handle_get_order,
}
use go_ddd_core.Minimal.Shop.Laws.{
  placed_view, Acceptable, handle_get_order-handle_place_order, handle_place_order-saved,
  handle_place_order-published,
}
use go_ddd_core.Minimal.Wiring.{
  Site, place_order_type, get_order_type, command_name, query_name, OrderBody, Request, post_orders,
  get_orders, Response, json_result, json_view, command_of, zero_command, zero_query, place, view,
  command_bus, query_bus, created, shown, post_order, get_order, serve, serve_all,
}

module _ (clock : ℕ → ℕ) (ids : ℕ → String) where
  -- The buses of `run` bring a request to its use case.
  post_order-place :
      (body : OrderBody) (s : Site)
      → post_order clock ids (ok body) s ≡ created clock ids (place clock ids (command_of body) s)
  unfolding post_order command_bus Command.dispatch Command.register command_name
      Bus.new_in_memory_bus
  post_order-place body s =
      ap (λ (f : Bus.Effect Site PlaceOrderResult). created clock ids (f s))
        (dispatch-register_typed command_name zero_command Command.err_command_mismatch
          Command.err_handler_not_found place_order_type (command_of body) (place clock ids)
          (Bus.new_in_memory_bus []) refl refl)

  get_order-view :
      (i : String) (s : Site)
      → get_order clock ids i s ≡ shown clock ids (s, handle_get_order memrepo i s.shop)
  unfolding get_order query_bus Query.dispatch Query.register query_name Query.new_in_memory_bus
      Bus.new_in_memory_bus view
  get_order-view i s =
      ap (λ (f : Bus.Effect Site OrderView). shown clock ids (f s))
        (dispatch-register_typed query_name zero_query Query.err_query_mismatch
          Query.err_handler_not_found get_order_type (record { order_id = i }) (view clock ids)
          (Query.new_in_memory_bus []) refl refl)

module _ (now : ℕ) (event_id : String) (items : List Item) (o : Order) where
  place_total-id :
      (total : Option _)
      → (place_total now items event_id o total).0.base.entity.id ≡ o.base.entity.id
  unfolding record_event increment_version
  place_total-id none = refl
  place_total-id (some t) = refl

  -- `Place` does not change the id of an order.
  place-id : (place_items now items event_id o).0.base.entity.id ≡ o.base.entity.id
  unfolding place_items
  place-id = elim (Bool-cases (is_draft o.status)) [
    | inr d ↦ rw d refl
    | inl d ↦ elim (Bool-cases (is_empty items)) [
      | inl e ↦ rw (d, e) refl
      | inr e ↦ rw (d, e) (place_total-id (total_loop items (pos 0)))
    ]
  ]

-- What a command leaves as it was: the orders in memory, and what is stored under another id.
record IsFrame (i : String) (s s' : Shop (Dict ℕ) (Unit {0})) : Type 0 where
  grows : s.orders.next ≤ s'.orders.next
  cells : (q : ℕ) → q < s.orders.next → s'.orders.cell q ≡ s.orders.cell q
  names : lookup i s'.repo ≡ lookup i s.repo

older : (p q : ℕ) → q < p → (p == q) ≡ false
older p q h = ground arith

same : (n : ℕ) → (n == n) ≡ true
same n = ground arith

after_place-IsFrame :
    (i : String) (cmd : PlaceOrderCommand) (s : Shop (Dict ℕ) (Unit {0})) (o : Order)
    (e : Option Error)
    → str_eq o.base.entity.id i ≡ false
    → IsFrame i s (after_place memrepo none "order.events" cmd s (o, e)).0
unfolding memrepo
after_place-IsFrame i cmd s o (some e) h = record {
  grows = omega arith;
  cells = λ q l. rw (older s.orders.next q l) refl;
  names = refl;
}
after_place-IsFrame i cmd s o none h = record {
  grows = omega arith;
  cells = λ q l. rw (older s.orders.next q l) refl;
  names =
      rw (same s.orders.next) (lookup-insert o.base.entity.id i s.orders.next s.repo ∙ rw h refl);
}

module _ (clock : ℕ → ℕ) (ids : ℕ → String) where
  place-IsFrame :
      (i : String) (cmd : PlaceOrderCommand) (s : Site)
      → str_eq cmd.order_id i ≡ false
      → IsFrame i s.shop (place clock ids cmd s).0.shop
  unfolding place handle_place_order new new_base_aggregate new_base_entity
  place-IsFrame i cmd s h =
      let r =
        place_items (clock s.handled) cmd.items (ids s.handled)
          (new cmd.order_id cmd.customer_id) in
      after_place-IsFrame i cmd s.shop r.0 r.1 (
        ap (λ (x : String). str_eq x i)
          (place-id (clock s.handled) (ids s.handled) cmd.items (new cmd.order_id cmd.customer_id))
        ∙ h)

-- The site shows a view under an id.
record Shows (i : String) (v : OrderView) (s : Site) : Type 0 where
  at : ℕ
  found_at : lookup i s.shop.repo ≡ some at
  in_use : at < s.shop.orders.next
  shows : view_order s.shop.orders (ok at) ≡ ok v

view_order-cell :
    (a b : Cells) (p : ℕ) → a.cell p ≡ b.cell p → view_order a (ok p) ≡ view_order b (ok p)
view_order-cell a b p h = rw h refl

Shows-IsFrame :
    (i : String) (v : OrderView) (s s' : Site)
    → IsFrame i s.shop s'.shop
    → Shows i v s
    → Shows i v s'
Shows-IsFrame i v s s' f h = record {
  at = h.at;
  found_at = f.names ∙ h.found_at;
  in_use = omega (arith, f.grows, h.in_use);
  shows = view_order-cell s'.shop.orders s.shop.orders h.at (f.cells h.at h.in_use) ∙ h.shows;
}

-- A request that does not post an order with the id `i`.
abbrev pub Spares : String → Request → Type 0
Spares i (post_orders (err e)) = Unit {0}
Spares i (post_orders (ok body)) = str_eq body.order_id i ≡ false
Spares i (get_orders j) = Unit {0}

module _ (clock : ℕ → ℕ) (ids : ℕ → String) (i : String) (v : OrderView) where
  created-site : (r : Site × Result PlaceOrderResult) → (created clock ids r).0 ≡ r.0
  created-site (s, ok r) = refl
  created-site (s, err e) = refl

  shown-site : (r : Site × Result OrderView) → (shown clock ids r).0 ≡ r.0
  shown-site (s, ok r) = refl
  shown-site (s, err e) = refl

  serve-Shows :
      (r : Request) (s : Site) → Spares i r → Shows i v s → Shows i v (serve clock ids r s).0
  unfolding serve
  serve-Shows (post_orders (err e)) s spares h = unfold post_order in h
  serve-Shows (post_orders (ok body)) s spares h =
      let site : (post_order clock ids (ok body) s).0 ≡ (place clock ids (command_of body) s).0 =
        ap (λ (x : Site × Response). x.0) (post_order-place clock ids body s)
        ∙ created-site (place clock ids (command_of body) s) in
      subst (Shows i v) (sym site) (
        Shows-IsFrame i v s (place clock ids (command_of body) s).0
          (place-IsFrame clock ids i (command_of body) s spares) h)
  serve-Shows (get_orders j) s spares h =
      let site : (get_order clock ids j s).0 ≡ s =
        ap (λ (x : Site × Response). x.0) (get_order-view clock ids j s)
        ∙ shown-site (s, handle_get_order memrepo j s.shop) in
      subst (Shows i v) (sym site) h

  serve_all-Shows :
      (rs : List Request) (s : Site)
      → All (Spares i) rs
      → Shows i v s
      → Shows i v (serve_all clock ids rs s)
  unfolding serve_all
  serve_all-Shows [] s spares h = h
  serve_all-Shows (r ∷ rs) s (one, rest) h =
      serve_all-Shows rs (serve clock ids r s).0 rest (serve-Shows r s one h)

  get_order-Shows : (s : Site) → Shows i v s → get_order clock ids i s ≡ (s, json_view 200 v)
  unfolding handle_get_order memrepo
  get_order-Shows s h =
      get_order-view clock ids i s
      ∙ rw h.found_at (ap (λ (r : Result OrderView). shown clock ids (s, r)) h.shows)

saved_shows :
    (now : ℕ) (event_id : String) (cmd : PlaceOrderCommand) (s : Shop (Dict ℕ) (Unit {0}))
    → Acceptable cmd
    → let s' = (handle_place_order memrepo none "order.events" now event_id cmd s).0 in
      (lookup cmd.order_id s'.repo ≡ some s.orders.next) × (s.orders.next < s'.orders.next)
saved_shows now event_id cmd s h =
    rw (handle_place_order-saved none "order.events" now event_id cmd s h) (
      lookup-insert cmd.order_id cmd.order_id s.orders.next s.repo ∙ rw (eq_refl cmd.order_id) refl,
      omega arith,
    )

module _ (clock : ℕ → ℕ) (ids : ℕ → String) where
  place-Shows :
      (cmd : PlaceOrderCommand) (s : Site)
      → Acceptable cmd
      → Shows cmd.order_id (placed_view cmd) (place clock ids cmd s).0
  unfolding place handle_get_order memrepo
  place-Shows cmd s h =
      let (l, u) = saved_shows (clock s.handled) (ids s.handled) cmd s.shop h in
      record {
        at = s.shop.orders.next;
        found_at = l;
        in_use = u;
        shows =
            sym
              (ap (λ (o : Option ℕ). view_order (place clock ids cmd s).0.shop.orders (found o)) l)
            ∙ handle_get_order-handle_place_order none "order.events" (clock s.handled)
                (ids s.handled) cmd s.shop h;
      }

  posted :
      (body : OrderBody) (s : Site)
      → Acceptable (command_of body)
      → post_order clock ids (ok body) s ≡ (
        (place clock ids (command_of body) s).0,
        json_result 201
            (record { order_id = body.order_id; total_cents = wrap (exact_total body.items) }),
      )
  unfolding place
  posted body s h =
      let (result, b, e) =
        handle_place_order-published none "order.events" (clock s.handled) (ids s.handled)
          (command_of body) s.shop s.shop.broker h refl in
      post_order-place clock ids body s
      ∙ ap
          (λ (r : Result PlaceOrderResult).
            created clock ids ((place clock ids (command_of body) s).0, r))
          result

  -- A posted order with items, all of a positive quantity, is answered by 201 with its id and its total, and
  -- from then on, after any requests that do not post an order with the same id, a request for it is
  -- answered by 200 with the placed order: through the routes, the buses, the use cases and the repository.
  pub get_order-serve_all :
      (body : OrderBody) (rs : List Request) (s : Site)
      → Acceptable (command_of body)
      → All (Spares body.order_id) rs
      → let (s1, reply) = serve clock ids (post_orders (ok body)) s in
        let s2 = serve_all clock ids rs s1 in
        (reply
          ≡ json_result 201
              (record { order_id = body.order_id; total_cents = wrap (exact_total body.items) }))
        × (serve clock ids (get_orders body.order_id) s2
            ≡ (s2, json_view 200 (placed_view (command_of body))))
  unfolding serve
  get_order-serve_all body rs s h spares =
      let shown_now =
        subst (λ (x : Site × Response). Shows body.order_id (placed_view (command_of body)) x.0)
          (sym (posted body s h)) (place-Shows (command_of body) s h) in
      (
        ap (λ (x : Site × Response). x.1) (posted body s h),
        get_order-Shows clock ids body.order_id (placed_view (command_of body)) _ (
            serve_all-Shows clock ids body.order_id (placed_view (command_of body)) rs _ spares
              shown_now),
      )
