-- ===== src/Minimal/Order/Laws.antt =====
-- What Place computes and what it leaves alone.
use go_ddd_core.Prelude.{
  ℕ, String, Bool, true, false, ◌≡◌, refl, sym, ◌∙◌, ap, inl, inr, none, some, List, [], ◌∷◌, ◌++◌,
  is_empty, ◌&&◌, not, if◌then◌else◌, arith, Bool-cases,
}
use go_ddd_core.Prelude.Int.{ℤ, pos, negsuc, leb_ℤ, ◌+ℤ◌, ◌*ℤ◌}
use go_ddd_core.Prelude.Int64.{wrap, add64, mul64}
use go_ddd_core.Errors.{Error}
use go_ddd_core.Domain.{domain_events, record_event, increment_version}
use go_ddd_core.Minimal.Order.{
  status_placed, is_draft, Item, Order, total_loop, place, new_order_placed,
}

wrap-add : (a b : ℤ) → wrap (wrap a +ℤ wrap b) ≡ wrap (a +ℤ b)
unfolding wrap ◌+ℤ◌
wrap-add (pos a) (pos b) = ground arith
wrap-add (pos a) (negsuc b) = ground arith
wrap-add (negsuc a) (pos b) = ground arith
wrap-add (negsuc a) (negsuc b) = ground arith

wrap-wrap : (a : ℤ) → wrap (wrap a) ≡ wrap a
unfolding wrap
wrap-wrap (pos a) = ground arith
wrap-wrap (negsuc a) = ground arith

+ℤ_assoc : (a b c : ℤ) → (a +ℤ b) +ℤ c ≡ a +ℤ (b +ℤ c)
unfolding ◌+ℤ◌
+ℤ_assoc a b c = ground arith

+ℤ_zero : (a : ℤ) → a +ℤ pos 0 ≡ a
unfolding ◌+ℤ◌
+ℤ_zero a = ground arith

zero_+ℤ : (a : ℤ) → pos 0 +ℤ a ≡ a
unfolding ◌+ℤ◌
zero_+ℤ a = ground arith

-- The sum of price times quantity, without overflow.
abbrev pub exact_total : List Item → ℤ
exact_total [] = pos 0
exact_total (it ∷ items) = it.price_cents *ℤ it.quantity +ℤ exact_total items

abbrev pub all_positive : List Item → Bool
all_positive [] = true
all_positive (it ∷ items) = if leb_ℤ it.quantity (pos 0) then false else all_positive items

total_loop_lem :
    (items : List Item) (a : ℤ)
    → total_loop items (wrap a)
      ≡ (if all_positive items then some (wrap (a +ℤ exact_total items)) else none)
unfolding total_loop add64 mul64
total_loop_lem [] a = rw (+ℤ_zero a) refl
total_loop_lem (it ∷ items) a = elim (Bool-cases (leb_ℤ it.quantity (pos 0))) [
  | inl p ↦ rw p refl
  | inr p ↦
      rw
        (
          p,
          wrap-add a (it.price_cents *ℤ it.quantity),
          sym (+ℤ_assoc a (it.price_cents *ℤ it.quantity) (exact_total items)),
        )
        (total_loop_lem items (a +ℤ it.price_cents *ℤ it.quantity))
]

pub loop_from_zero :
    (items : List Item)
    → total_loop items (pos 0)
      ≡ (if all_positive items then some (wrap (exact_total items)) else none)
unfolding wrap
loop_from_zero items =
    total_loop_lem items (pos 0)
    ∙ ap (λ t. if all_positive items then some (wrap t) else none) (zero_+ℤ (exact_total items))

-- Place on a draft with items, all of a positive quantity, succeeds: the order is placed, holds the
-- items, and its total is the exact sum of price times quantity, reduced to int64 once; its version goes
-- up by one and one event is recorded, with that version and total.
place_accepts :
    (now : ℕ) (items : List Item) (event_id : String) (o : Order)
    → is_draft o.status ≡ true
    → is_empty items ≡ false
    → all_positive items ≡ true
    → let total = wrap (exact_total items) in
      let v = add64 o.base.version (pos 1) in
      let (o', x) = place now items event_id o in
      (x ≡ none)
      × (o'.status ≡ status_placed)
      × (o'.items ≡ items)
      × (o'.total_cents ≡ total)
      × (o'.base.version ≡ v)
      × (domain_events o'.base
          ≡ domain_events o.base
            ++ new_order_placed now event_id o.base.entity.id v o.customer_id total ∷ [])
unfolding place domain_events record_event increment_version
place_accepts now items event_id o d n h =
    let sum : total_loop items (pos 0) ≡ some (wrap (exact_total items)) =
      loop_from_zero items ∙ rw h refl in
    rw (d, n, sum) (refl, refl, refl, refl, refl, refl)

-- Place on an order that is not a draft, without items, or with an item whose quantity is not positive
-- returns an error and leaves the order as it was, wherever that item stands.
pub place_refused :
    (now : ℕ) (items : List Item) (event_id : String) (o : Order)
    → (is_draft o.status && not (is_empty items) && all_positive items) ≡ false
    → (e : Error) × (place now items event_id o ≡ (o, some e))
unfolding place
place_refused now items event_id o h = elim (Bool-cases (is_draft o.status)) [
  | inr p ↦ rw p (_, refl)
  | inl p ↦ elim (Bool-cases (is_empty items)) [
    | inl q ↦ rw (p, q) (_, refl)
    | inr q ↦
        let bad : all_positive items ≡ false = rw (p, q) at h in
        let sum : total_loop items (pos 0) ≡ none = loop_from_zero items ∙ rw bad refl in
        rw (p, q, sum) (_, refl)
  ]
]
