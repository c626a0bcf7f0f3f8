-- ===== src/Eventsourcing.antt =====
-- eventsourcing/aggregate.go, eventsourcing/snapshot.go and the constants of
-- eventsourcing/eventstore.go. The injected apply function is a parameter: it maps an event and the
-- concrete aggregate's state `S` to the new state and an error, and may have changed the state
-- before it fails. It does not touch the embedded base, as the documentation of `Applier` demands.
pub mod Replay
pub mod Snapshot
pub mod Store
use go_ddd_core.Prelude.{ℕ, String, Bool, false, Option, none, some, List, [], ◌∷◌, ◌%◌, ◌+◌, ◌==◌}
use go_ddd_core.Prelude.{if◌then◌else◌}
use go_ddd_core.Prelude.Int.{ℤ, pos, negsuc, pos_part, neg_part, leb_ℤ}
use go_ddd_core.Errors.{Error}
use go_ddd_core.Domain.{
  BaseAggregate, new_base_aggregate, record_event, increment_version, clear_events,
}

-- `BaseESAggregate[ID]` with the state that `apply` mutates.
pub record BaseEsAggregate {ℓ κ} (ID : Type ℓ) (E : Type κ) (S : Type 0) : Type (ℓ ⊔ κ) where
  pub base : BaseAggregate ID E
  pub state : S

module _ {ℓ κ} {ID : Type ℓ} {E : Type κ} {S : Type 0} where
  -- `NewBaseESAggregate(id, apply)`, over an initial state.
  unfoldable pub new_base_es_aggregate : ID → S → BaseEsAggregate ID E S
  new_base_es_aggregate i s = record { base = new_base_aggregate i; state = s }

module _ {ℓ κ} {ID : Type ℓ} {E : Type κ} {S : Type 0} (apply : E → S → S × Option Error) where
  -- `a.Raise(event)`
  unfoldable pub raise : E → BaseEsAggregate ID E S → BaseEsAggregate ID E S × Option Error
  raise e a =
      let (s, x) = apply e a.state in
      elim x [
        | some y ↦ (record a { state = s }, some y)
        | none ↦ (record { base = increment_version (record_event e a.base); state = s }, none)
      ]

  -- `a.LoadHistory(events)`
  unfoldable pub load_history :
      List E → BaseEsAggregate ID E S → BaseEsAggregate ID E S × Option Error
  load_history [] a = (record a { base = clear_events a.base }, none)
  load_history (e ∷ es) a =
      let (s, x) = apply e a.state in
      elim x [
        | some y ↦ (record a { state = s }, some y)
        | none ↦ load_history es (record { base = increment_version a.base; state = s })
      ]

-- `EveryN(n).ShouldSnapshot(stream, version, appended)`; the sign of a remainder of int64 does not
-- matter to the test `== 0`.
unfoldable pub should_snapshot : ℤ → ℤ → Bool
should_snapshot n version =
    if leb_ℤ n (pos 0) then false else ((pos_part version + neg_part version) % pos_part n == 0)

abbrev pub expected_version_any : ℤ
expected_version_any = negsuc 0

abbrev pub expected_version_new : ℤ
expected_version_new = pos 0
