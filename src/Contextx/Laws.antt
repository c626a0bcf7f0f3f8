-- ===== src/Contextx/Laws.antt =====
-- Independence of the identifiers that a context carries (pkg/contextx/contextx.go).
use go_ddd_core.Prelude.{String, ◌≡◌, refl, List, [], ◌∷◌}
use go_ddd_core.Contextx.{
  Context, with_value, value, string_value, with_trace_id, trace_id, with_request_id, request_id,
  with_correlation_id, correlation_id, with_causation_id, causation_id, with_tenant_id, tenant_id,
  with_user_id, user_id,
}

-- The setters of the package.
pub data Setter : Type 0 where
  trace : Setter
  request : Setter
  correlation : Setter
  causation : Setter
  tenant : Setter
  user : Setter

abbrev pub set : Setter → String → Context → Context
set trace i ctx = with_trace_id i ctx
set request i ctx = with_request_id i ctx
set correlation i ctx = with_correlation_id i ctx
set causation i ctx = with_causation_id i ctx
set tenant i ctx = with_tenant_id i ctx
set user i ctx = with_user_id i ctx

-- What the six getters return.
abbrev pub Ids : Type 0
Ids = String × String × String × String × String × String

abbrev pub ids : Context → Ids
ids ctx =
    (trace_id ctx, request_id ctx, correlation_id ctx, causation_id ctx, tenant_id ctx, user_id ctx)

abbrev pub assign : Setter → String → Ids → Ids
assign trace i (a, b, c, d, e, f) = (i, b, c, d, e, f)
assign request i (a, b, c, d, e, f) = (a, i, c, d, e, f)
assign correlation i (a, b, c, d, e, f) = (a, b, i, d, e, f)
assign causation i (a, b, c, d, e, f) = (a, b, c, i, e, f)
assign tenant i (a, b, c, d, e, f) = (a, b, c, d, i, f)
assign user i (a, b, c, d, e, f) = (a, b, c, d, e, i)

abbrev pub set_all : List (Setter × String) → Context → Context
set_all [] ctx = ctx
set_all ((s, i) ∷ rest) ctx = set_all rest (set s i ctx)

abbrev pub assign_all : List (Setter × String) → Ids → Ids
assign_all [] v = v
assign_all ((s, i) ∷ rest) v = assign_all rest (assign s i v)

ids-set : (s : Setter) (i : String) (ctx : Context) → ids (set s i ctx) ≡ assign s i (ids ctx)
unfolding with_trace_id trace_id with_request_id request_id with_correlation_id correlation_id
    with_causation_id causation_id with_tenant_id tenant_id with_user_id user_id with_value value
    string_value
ids-set trace i ctx = refl
ids-set request i ctx = refl
ids-set correlation i ctx = refl
ids-set causation i ctx = refl
ids-set tenant i ctx = refl
ids-set user i ctx = refl

-- After any sequence of setters, the six getters return what a record of six texts would hold after
-- the same assignments: each setter decides its own identifier alone, and the latest one counts.
pub ids-set_all :
    (steps : List (Setter × String)) (ctx : Context)
    → ids (set_all steps ctx) ≡ assign_all steps (ids ctx)
ids-set_all [] ctx = refl
ids-set_all ((s, i) ∷ rest) ctx = rw (ids-set_all rest (set s i ctx), ids-set s i ctx) refl
