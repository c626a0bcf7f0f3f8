-- ===== src/Domain/Aggregate.antt =====
-- The pending events and the version of an aggregate (domain/aggregate.go).
use go_ddd_core.Prelude.{◌≡◌, refl, List, [], ◌∷◌, ◌++◌, append-nil, append_assoc, ◌∙◌}
use go_ddd_core.Domain.{BaseAggregate, record_event, domain_events, clear_events}

module _ {ℓ κ} {ID : Type ℓ} {E : Type κ} where
  abbrev pub record_all : List E → BaseAggregate ID E → BaseAggregate ID E
  record_all [] a = a
  record_all (e ∷ es) a = record_all es (record_event e a)

  record_all-events :
      (es : List E) (a : BaseAggregate ID E)
      → domain_events (record_all es a) ≡ domain_events a ++ es
  unfolding domain_events record_event
  record_all-events [] a = rw append-nil
  record_all-events (e ∷ es) a = rw (record_all-events es (record_event e a)) (simp append_assoc)

  record_all-entity : (es : List E) (a : BaseAggregate ID E) → (record_all es a).entity ≡ a.entity
  unfolding record_event
  record_all-entity [] a = refl
  record_all-entity (e ∷ es) a = record_all-entity es (record_event e a)

  record_all-version :
      (es : List E) (a : BaseAggregate ID E) → (record_all es a).version ≡ a.version
  unfolding record_event
  record_all-version [] a = refl
  record_all-version (e ∷ es) a = record_all-version es (record_event e a)

  -- Recorded events come out in the order of recording, after those already pending; recording
  -- changes neither the id nor the version. After ClearEvents, what is recorded is all that is
  -- pending.
  domain_events-record_all :
      (es : List E) (a : BaseAggregate ID E)
      → (domain_events (record_all es a) ≡ domain_events a ++ es)
        × ((record_all es a).entity ≡ a.entity)
        × ((record_all es a).version ≡ a.version)
        × (domain_events (record_all es (clear_events a)) ≡ es)
  unfolding clear_events
  domain_events-record_all es a = (
    record_all-events es a,
    record_all-entity es a,
    record_all-version es a,
    record_all-events es (clear_events a) ∙ unfold domain_events in refl,
  )
