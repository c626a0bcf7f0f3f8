-- ===== src/Eventbus.antt =====
-- eventbus/router.go, eventbus/handler.go and eventbus/bus.go. The goroutine of `Router.Run` is driven
-- by an explicit sequence of signals: an envelope from the subscriber's channel, the closing of the
-- channel, or the end of the context; Go's select may choose any that is ready, and every choice is
-- one such sequence. Handlers change a program state and return nil or an error. The acknowledgements
-- of watermill messages, which are not part of the repository, are recorded in a log.
pub mod Laws
pub mod Outbox
use go_ddd_core.Prelude.{
  ℕ, String, Bool, true, false, Option, none, some, List, [], ◌∷◌, ◌++◌, reverse,
}
use go_ddd_core.Prelude.Dict.{Dict, lookup, insert}
use go_ddd_core.Errors.{Error, plain}

-- A call that changes the program state and returns nil or an error.
abbrev pub Action : Type 0 → Type 0
Action S = S → S × Option Error

abbrev pub DispatchFunc : Type 0 → Type 0 → Type 0
DispatchFunc E S = E → Action S

abbrev pub Middleware : Type 0 → Type 0 → Type 0
Middleware E S = DispatchFunc E S → DispatchFunc E S

-- `raw` is nil or the identity of a watermill message.
pub record Envelope (E : Type 0) : Type 0 where
  pub event : E
  pub name : String
  pub raw : Option ℕ

pub data Verdict : Type 0 where
  acked nacked : ℕ → Verdict

-- `env.Ack()` and `env.Nack()`, appended to the log.
unfoldable pub ack : {E : Type 0} → Envelope E → List Verdict → List Verdict
ack env log = elim env.raw [ none ↦ log | some m ↦ log ++ acked m ∷ [] ]

unfoldable pub nack : {E : Type 0} → Envelope E → List Verdict → List Verdict
nack env log = elim env.raw [ none ↦ log | some m ↦ log ++ nacked m ∷ [] ]

-- `Router`, without its subscriber.
pub record Router (E S : Type 0) : Type 0 where
  pub middlewares : List (Middleware E S)
  pub handlers : Dict (List (DispatchFunc E S))
  pub on_unknown : Option (Envelope E → S → S)

-- `ErrEventMismatch`
abbrev pub err_event_mismatch : Error
err_event_mismatch = plain "eventbus: event type mismatch"

module _ {E S : Type 0} where
  -- The loop of `Chain`, over the middlewares from the last to the first.
  unfoldable pub chain_loop : List (Middleware E S) → DispatchFunc E S → DispatchFunc E S
  chain_loop [] next = next
  chain_loop (m ∷ ms) next = chain_loop ms (m next)

  -- `Chain(mws...)`
  unfoldable pub chain : List (Middleware E S) → DispatchFunc E S → DispatchFunc E S
  unfolding chain_loop
  chain mws next = chain_loop (reverse mws) next

  -- `NewRouter(sub, mws...)`
  unfoldable pub new_router : List (Middleware E S) → Router E S
  new_router mws = record { middlewares = mws; handlers = []; on_unknown = none }

  -- `r.OnUnknown(fn)`
  unfoldable pub set_on_unknown : Option (Envelope E → S → S) → Router E S → Router E S
  set_on_unknown fn r = record r { on_unknown = fn }

  -- `r.handlers[name]`: nil, the empty slice, for a missing key.
  abbrev pub found : Option (List (DispatchFunc E S)) → List (DispatchFunc E S)
  found none = []
  found (some fns) = fns

  unfoldable pub handlers_of : String → Router E S → List (DispatchFunc E S)
  handlers_of name r = found (lookup name r.handlers)

  -- `r.RegisterHandler(name, fn)`
  unfoldable pub register_handler : String → DispatchFunc E S → Router E S → Router E S
  unfolding handlers_of
  register_handler name fn r = record r {
    handlers = insert name (handlers_of name r ++ chain r.middlewares fn ∷ []) r.handlers;
  }

  -- The function that `Register` stores: `as_e` is the type assertion `e.(E)`.
  unfoldable pub typed : {T : Type 0} → (E → Option T) → (T → Action S) → DispatchFunc E S
  typed as_e handle e = elim (as_e e) [
    | none ↦ λ s. (s, some err_event_mismatch)
    | some t ↦ handle t
  ]

  -- The loop over the handlers in `dispatch`, which returns the first error.
  unfoldable pub run_handlers : List (DispatchFunc E S) → E → Action S
  run_handlers [] e s = (s, none)
  run_handlers (fn ∷ fns) e s =
      let (s', x) = fn e s in elim x [ some y ↦ (s', some y) | none ↦ run_handlers fns e s' ]

  abbrev pub call_unknown : Option (Envelope E → S → S) → Envelope E → S → S
  call_unknown none env s = s
  call_unknown (some fn) env s = fn env s

  abbrev pub dispatch_to : List (DispatchFunc E S) → Router E S → Envelope E → Action S
  dispatch_to [] r env s = (call_unknown r.on_unknown env s, none)
  dispatch_to (fn ∷ fns) r env s = run_handlers (fn ∷ fns) env.event s

  -- `r.dispatch(ctx, env)`
  unfoldable pub dispatch : Router E S → Envelope E → Action S
  dispatch r env s = dispatch_to (handlers_of env.name r) r env s

pub data Signal (E : Type 0) : Type 0 where
  envelope : Envelope E → Signal E
  closed : Signal E
  done : Error → Signal E

-- `returned` is the result of Run; `waiting` says that Run still blocks in its select.
pub data Outcome : Type 0 where
  returned : Option Error → Outcome
  waiting : Outcome

pub record RunState (S : Type 0) : Type 0 where
  pub state : S
  pub log : List Verdict

module _ {E S : Type 0} where
  -- The body of the loop on one envelope.
  unfoldable pub handle_envelope : Router E S → Envelope E → RunState S → RunState S
  handle_envelope r env st =
      let (s, x) = dispatch r env st.state in
      elim x [
        | some y ↦ record { state = s; log = nack env st.log }
        | none ↦ record { state = s; log = ack env st.log }
      ]

  unfoldable pub run_loop : Router E S → List (Signal E) → RunState S → RunState S × Outcome
  run_loop r [] st = (st, waiting)
  run_loop r (envelope env ∷ rest) st = run_loop r rest (handle_envelope r env st)
  run_loop r (closed ∷ rest) st = (st, returned none)
  run_loop r (done e ∷ rest) st = (st, returned (some e))

  -- `r.Run(ctx, topic)`, where `subscribed` is the error of Subscribe, if any.
  unfoldable pub run :
      Router E S → Option Error → List (Signal E) → RunState S → RunState S × Outcome
  run r none signals st = run_loop r signals st
  run r (some e) signals st = (st, returned (some e))
