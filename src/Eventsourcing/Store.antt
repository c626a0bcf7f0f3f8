-- ===== src/Eventsourcing/Store.antt =====
-- eventsourcing/eventstore.go, the records of eventsourcing/snapshot.go and ProjectorFunc of
-- eventsourcing/projector.go: the interface of an event store with what its documentation promises as
-- laws, and a store in memory that keeps them. A stream's version is the number of its events.
pub mod Laws
use Prim.Native.String.{◌++◌ as ◌+++◌}
use go_ddd_core.Prelude.{
  ℕ, zero, suc, String, Bool, true, false, ◌&&◌, ◌≡◌, refl, ap, ◌∙◌, Option, none, some, List, [],
  ◌∷◌, ◌++◌, length, str_eq, eq_refl, ◌==◌, arith,
}
use go_ddd_core.Prelude.Int.{ℤ, pos, negsuc}
use go_ddd_core.Errors.{Error, plain, wrapped, error_text, Result, ok, err}

pub record StreamId : Type 0 where
  pub aggregate_type : String
  pub aggregate_id : String

pub record PersistedEvent (E : Type 0) : Type 0 where
  pub event : E
  pub stream_id : StreamId
  pub stream_version : ℤ
  pub global_position : ℤ

-- The time is in nanoseconds.
pub record Snapshot : Type 0 where
  pub stream : StreamId
  pub version : ℤ
  pub state : List ℕ
  pub taken_at : ℕ

-- `domain.ErrConcurrencyConflict` and `ErrConcurrency`
abbrev pub err_concurrency_conflict : Error
err_concurrency_conflict = plain "domain: concurrency conflict"

abbrev pub err_concurrency : Error
err_concurrency = wrapped "eventsourcing: domain: concurrency conflict" err_concurrency_conflict

-- `EventStore`, over the events `E` and the state `S` of its storage.
pub record EventStore (S E : Type 0) : Type 0 where
  pub append : StreamId → ℤ → List E → S → S × Option Error
  pub load : StreamId → S → Result (List E × ℤ)
  pub load_from : StreamId → ℤ → S → Result (List E × ℤ)

-- `ProjectorFunc`, over the state `S` of the read model.
pub record ProjectorFunc (S E : Type 0) : Type 0 where
  pub projector_name : String
  pub project_fn : PersistedEvent E → S → S × Option Error

-- Its method `Project`.
unfoldable pub project :
    {S E : Type 0} → ProjectorFunc S E → PersistedEvent E → S → S × Option Error
project p e s = p.project_fn e s

-- Whether an expected version lets an append through to a stream of the given length: it is
-- ExpectedVersionAny, or the version of the stream (ExpectedVersionNew is that of no events).
abbrev pub admits : ℤ → ℕ → Bool
admits (pos v) n = v == n
admits (negsuc zero) n = true
admits (negsuc (suc v)) n = false

unfoldable pub stream_eq : StreamId → StreamId → Bool
stream_eq a b = str_eq a.aggregate_type b.aggregate_type && str_eq a.aggregate_id b.aggregate_id

-- What the documentation of EventStore promises of the calls that succeed, where `view` gives the events of
-- each stream; any call may return an error. An append that succeeds was admitted, and adds its events to
-- its stream and to no other. Load returns the events of the stream and LoadFrom those after the first
-- `fromVersion`, both with the stream's version.
module _ {S E : Type 0} where
  pub record IsEventStore (store : EventStore S E) (view : S → StreamId → List E) : Type 0 where
    pub appends :
        (st : StreamId) (v : ℤ) (es : List E) (s : S)
        → (store.append st v es s).1 ≡ none
        → (admits v (length (view s st)) ≡ true)
          × (view (store.append st v es s).0 st ≡ view s st ++ es)
          × ((t : StreamId) → stream_eq t st ≡ false → view (store.append st v es s).0 t ≡ view s t)
    pub loads :
        (st : StreamId) (s : S) (es : List E) (v : ℤ)
        → store.load st s ≡ ok (es, v)
        → (es ≡ view s st) × (v ≡ pos (length (view s st)))
    pub loads_from :
        (st : StreamId) (s : S) (xs ys es : List E) (v : ℤ)
        → view s st ≡ xs ++ ys
        → store.load_from st (pos (length xs)) s ≡ ok (es, v)
        → (es ≡ ys) × (v ≡ pos (length (view s st)))

-- A store in memory.
abbrev pub Streams : Type 0 → Type 0
Streams E = StreamId → List E

stream_eq_refl : (st : StreamId) → stream_eq st st ≡ true
unfolding stream_eq
stream_eq_refl st = rw (eq_refl st.aggregate_type, eq_refl st.aggregate_id) refl

module _ {E : Type 0} where
  abbrev extended : Bool → List E → List E → List E
  extended true old es = old ++ es
  extended false old es = old

  abbrev appended : Bool → StreamId → List E → Streams E → Streams E × Option Error
  appended true st es s = (λ t. extended (stream_eq t st) (s t) es, none)
  appended false st es s = (s, some err_concurrency)

  abbrev from : ℕ → List E → List E
  from zero es = es
  from (suc n) [] = []
  from (suc n) (e ∷ es) = from n es

  abbrev after : ℤ → List E → List E
  after (pos n) es = from n es
  after (negsuc n) es = es

  unfoldable pub memory_store : EventStore (Streams E) E
  memory_store = record {
    append = λ st v es s. appended (admits v (length (s st))) st es s;
    load = λ st s. ok (s st, pos (length (s st)));
    load_from = λ st v s. ok (after v (s st), pos (length (s st)));
  }

  from_prefix : (xs ys : List E) → from (length xs) (xs ++ ys) ≡ ys
  from_prefix [] ys = refl
  from_prefix (x ∷ xs) ys = from_prefix xs ys

  appended-admits :
      (b : Bool) (st : StreamId) (es : List E) (s : Streams E)
      → (appended b st es s).1 ≡ none
      → (b ≡ true)
        × ((appended b st es s).0 st ≡ s st ++ es)
        × ((t : StreamId) → stream_eq t st ≡ false → (appended b st es s).0 t ≡ s t)
  appended-admits true st es s h = (
    refl,
    ap (λ (c : Bool). extended c (s st) es) (stream_eq_refl st),
    λ t d. ap (λ (c : Bool). extended c (s t) es) d,
  )
  appended-admits false st es s h = cc

  pub memory_store-IsEventStore : IsEventStore memory_store (λ (s : Streams E) st. s st)
  unfolding memory_store
  memory_store-IsEventStore = record {
    appends = λ st v es s h. appended-admits (admits v (length (s st))) st es s h;
    loads = λ st s es v h. (cc h, cc h);
    loads_from = λ st s xs ys es v split h.
        let same : es ≡ from (length xs) (s st) = cc h in
        (same ∙ ap (from (length xs)) split ∙ from_prefix xs ys, cc h);
  }
