-- ===== src/Eventsourcing/Replay.antt =====
-- Replaying what an aggregate has raised rebuilds it (eventsourcing/aggregate.go).
use go_ddd_core.Prelude.{
  ◌≡◌, refl, sym, ap, subst, ◌∙◌, Option, none, some, List, [], ◌∷◌, ◌++◌, append-nil, append_assoc,
  inl, inr, Option-cases,
}
use go_ddd_core.Errors.{Error}
use go_ddd_core.Domain.{
  new_base_aggregate, domain_events, record_event, increment_version, clear_events,
}
use go_ddd_core.Eventsourcing.{BaseEsAggregate, new_base_es_aggregate, raise, load_history}

abbrev and_then {ℓ} : {A : Type ℓ} → A × Option Error → (A → A × Option Error) → A × Option Error
and_then (b, some y) k = (b, some y)
and_then (b, none) k = k b

module _ {ℓ κ} {ID : Type ℓ} {E : Type κ} {S : Type 0} (apply : E → S → S × Option Error) where
  -- A command that raises several events and stops at the first error.
  unfoldable pub raise_all : List E → BaseEsAggregate ID E S → BaseEsAggregate ID E S × Option Error
  raise_all [] a = (a, none)
  raise_all (e ∷ es) a = and_then (raise apply e a) (raise_all es)

  -- The aggregate with other pending events.
  abbrev with_events : List E → BaseEsAggregate ID E S → BaseEsAggregate ID E S
  with_events xs a = record a { base = record (a.base) { events = xs } }

  -- The aggregate after an event that `apply` accepts.
  abbrev raised : E → BaseEsAggregate ID E S → BaseEsAggregate ID E S
  raised e a = record {
    base = increment_version (record_event e a.base);
    state = (apply e a.state).0;
  }

  raise-raised :
      (e : E) (a : BaseEsAggregate ID E S)
      → (apply e a.state).1 ≡ none
      → raise apply e a ≡ (raised e a, none)
  unfolding raise
  raise-raised e a p = rw (p, raise)

  pub load_history-accepted :
      (e : E) (es : List E) (a : BaseEsAggregate ID E S)
      → (apply e a.state).1 ≡ none
      → load_history apply (e ∷ es) a
        ≡ load_history apply es
            (record { base = increment_version a.base; state = (apply e a.state).0 })
  unfolding load_history
  load_history-accepted e es a p = rw (p, load_history)

  raise_all-accepted :
      (e : E) (es : List E) (a : BaseEsAggregate ID E S)
      → (apply e a.state).1 ≡ none
      → raise_all (e ∷ es) a ≡ raise_all es (raised e a)
  unfolding raise_all
  raise_all-accepted e es a p = rw (raise-raised e a p)

  raise_all-refused :
      (e : E) (es : List E) (a : BaseEsAggregate ID E S) {y : Error}
      → (apply e a.state).1 ≡ some y
      → (raise_all (e ∷ es) a).1 ≡ some y
  unfolding raise_all raise
  raise_all-refused e es a p = rw (p, raise, raise_all)

  raise_all-replay :
      (es xs : List E) (a : BaseEsAggregate ID E S)
      → (raise_all es a).1 ≡ none
      → let b = (raise_all es a).0 in
        (load_history apply es (with_events xs a) ≡ (with_events [] b, none))
        × (b.base.events ≡ a.base.events ++ es)
  unfolding raise_all load_history record_event increment_version clear_events
  raise_all-replay [] xs a h = (refl, sym (append-nil a.base.events))
  raise_all-replay (e ∷ es) xs a h = elim (Option-cases (apply e a.state).1) [
    | inl p ↦
        let ih = raise_all-replay es xs (raised e a) (rw (raise_all-accepted e es a p) at h) in
        rw (load_history-accepted e es (with_events xs a) p, raise_all-accepted e es a p)
          (ih.0, ih.1 ∙ append_assoc a.base.events (e ∷ []) es)
    | inr (y, p) ↦ cc (raise_all-refused e es a p)
  ]

  -- If a run of Raise calls on a new aggregate succeeds, replaying its pending events with
  -- LoadHistory on another new aggregate of that id and initial state succeeds and gives the same
  -- state, id and version, with no event pending.
  pub load_history-raise_all :
      (i : ID) (s : S) (es : List E) (b : BaseEsAggregate ID E S)
      → raise_all es (new_base_es_aggregate i s) ≡ (b, none)
      → load_history apply (domain_events b.base) (new_base_es_aggregate i s)
        ≡ (record b { base = clear_events b.base }, none)
  unfolding new_base_es_aggregate new_base_aggregate domain_events clear_events
  load_history-raise_all i s es b h =
      let a : BaseEsAggregate ID E S = new_base_es_aggregate i s in
      let r = raise_all-replay es [] a (ap (λ p. p.1) h) in
      subst
        (λ (c : BaseEsAggregate ID E S).
          load_history apply c.base.events a ≡ (record c { base = clear_events c.base }, none))
        (ap (λ p. p.0) h) (rw (r.1) (r.0))
