-- ===== src/Eventsourcing/Store/Laws.antt =====
-- What an event-sourced repository has of an event store that keeps its documentation.
use go_ddd_core.Prelude.{
  ◌≡◌, refl, ap, sym, ◌∙◌, Option, none, List, [], ◌∷◌, ◌++◌, length, Option-cases, inl, inr,
}
use go_ddd_core.Prelude.Int.{ℤ, pos}
use go_ddd_core.Errors.{Error, ok}
use go_ddd_core.Domain.{new_base_aggregate, clear_events, increment_version}
use go_ddd_core.Eventsourcing.{BaseEsAggregate, new_base_es_aggregate, load_history}
use go_ddd_core.Eventsourcing.Replay.{load_history-accepted}
use go_ddd_core.Eventsourcing.Store.{StreamId, EventStore, IsEventStore}

module _ {ID E S : Type 0} (apply : E → S → S × Option Error) where
  load_history-append :
      (xs ys : List E) (a b : BaseEsAggregate ID E S)
      → a.base.events ≡ []
      → load_history apply xs a ≡ (b, none)
      → load_history apply (xs ++ ys) a ≡ load_history apply ys b
  unfolding load_history clear_events increment_version
  load_history-append [] ys a b n h =
      let cleared : a ≡ record a { base = clear_events a.base } =
        ap (λ (zs : List E). record a { base = record a.base { events = zs } }) n in
      ap (load_history apply ys)
        (cleared ∙ ap (λ (r : BaseEsAggregate ID E S × Option Error). r.0) h)
  load_history-append (x ∷ xs) ys a b n h = elim (Option-cases (apply x a.state).1) [
    | inl p ↦
        load_history-accepted apply x (xs ++ ys) a p
        ∙ load_history-append xs ys
            (record { base = increment_version a.base; state = (apply x a.state).0 }) b n
            (sym (load_history-accepted apply x xs a p) ∙ h)
    | inr (y, p) ↦ cc (rw (p, load_history) at h)
  ]

module _ {S E : Type 0} (store : EventStore S E) (view : S → StreamId → List E)
    (laws : IsEventStore store view) where
  -- Replay from a snapshot is replay from the beginning: if a new aggregate that has replayed the first
  -- events of a stream is kept as a snapshot at their number, then replaying on it what LoadFrom gives
  -- for that version has the result, the state, the version and the error, of replaying on a new
  -- aggregate all that Load gives; and the two calls report one current version.
  pub load_from-snapshot :
      {ID A : Type 0} (apply : E → A → A × Option Error) (i : ID) (a : A) (st : StreamId) (s : S)
      (xs ys all rest : List E) (v w : ℤ) (snap : BaseEsAggregate ID E A)
      → view s st ≡ xs ++ ys
      → load_history apply xs (new_base_es_aggregate i a) ≡ (snap, none)
      → store.load st s ≡ ok (all, v)
      → store.load_from st (pos (length xs)) s ≡ ok (rest, w)
      → (v ≡ w)
        × (load_history apply all (new_base_es_aggregate i a) ≡ load_history apply rest snap)
  unfolding new_base_es_aggregate new_base_aggregate
  load_from-snapshot apply i a st s xs ys all rest v w snap split h loaded loaded_from =
      let (events, version) = laws.loads st s all v loaded in
      let (later, same) = laws.loads_from st s xs ys rest w split loaded_from in
      (
        version ∙ sym same,
        ap (λ (es : List E). load_history apply es (new_base_es_aggregate i a)) (events ∙ split)
            ∙ load_history-append apply xs ys (new_base_es_aggregate i a) snap refl h
            ∙ ap (λ (es : List E). load_history apply es snap) (sym later),
      )
