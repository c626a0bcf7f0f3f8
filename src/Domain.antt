-- ===== src/Domain.antt =====
-- domain/entity.go, domain/aggregate.go, domain/event.go and domain/valueobject.go. A method with a
-- pointer receiver returns the new struct. IDs are compared by a given test, as Go compares values
-- of a comparable type. Event ids and the time of an event are arguments.
pub mod Aggregate
use go_ddd_core.Prelude.{ℕ, String, Bool, false, Option, none, some, List, [], ◌∷◌, ◌++◌, Eq, ◌≟◌}
use go_ddd_core.Prelude.Int.{ℤ, pos}
use go_ddd_core.Prelude.Int64.{add64}

pub record BaseEntity {ℓ} (ID : Type ℓ) : Type ℓ where
  pub id : ID

-- `NewBaseEntity(id)`
unfoldable pub new_base_entity {ℓ} : {ID : Type ℓ} → ID → BaseEntity ID
new_base_entity i = record { id = i }

-- `e.Equal(other)`, where `other` is nil or an entity with the given id.
unfoldable pub entity_equal {ℓ} : {ID : Type ℓ} ⦃e : Eq ID⦄ → BaseEntity ID → Option ID → Bool
entity_equal e none = false
entity_equal e (some other) = e.id ≟ other

-- `EqualValues(a, b)`
unfoldable pub equal_values {ℓ} : {T : Type ℓ} ⦃e : Eq T⦄ → T → T → Bool
equal_values a b = a ≟ b

-- `BaseEvent`; `at` is the time in nanoseconds, `ver` an int64.
pub record BaseEvent : Type 0 where
  pub id : String
  pub name : String
  pub aggregate_key : String
  pub aggregate_kind : String
  pub at : ℕ
  pub ver : ℤ

-- `NewBaseEvent(...)` at the time `now`.
unfoldable pub new_base_event : ℕ → String → String → String → String → ℤ → BaseEvent
new_base_event now i n key kind v = record {
  id = i;
  name = n;
  aggregate_key = key;
  aggregate_kind = kind;
  at = now;
  ver = v;
}

-- `BaseAggregate[ID]`, over the program's events `E`.
pub record BaseAggregate {ℓ κ} (ID : Type ℓ) (E : Type κ) : Type (ℓ ⊔ κ) where
  pub entity : BaseEntity ID
  pub events : List E
  pub version : ℤ

module _ {ℓ κ} {ID : Type ℓ} {E : Type κ} where
  -- `NewBaseAggregate(id)`
  unfoldable pub new_base_aggregate : ID → BaseAggregate ID E
  unfolding new_base_entity
  new_base_aggregate i = record { entity = new_base_entity i; events = []; version = pos 0 }

  -- `a.Record(event)`
  unfoldable pub record_event : E → BaseAggregate ID E → BaseAggregate ID E
  record_event e a = record a { events = a.events ++ e ∷ [] }

  -- `a.DomainEvents()`
  unfoldable pub domain_events : BaseAggregate ID E → List E
  domain_events a = a.events

  -- `a.ClearEvents()`
  unfoldable pub clear_events : BaseAggregate ID E → BaseAggregate ID E
  clear_events a = record a { events = [] }

  -- `a.SetVersion(v)`
  unfoldable pub set_version : ℤ → BaseAggregate ID E → BaseAggregate ID E
  set_version v a = record a { version = v }

  -- `a.IncrementVersion()`
  unfoldable pub increment_version : BaseAggregate ID E → BaseAggregate ID E
  increment_version a = record a { version = add64 a.version (pos 1) }
