-- ===== src/Eventbus/Laws.antt =====
-- What the router does with envelopes and handlers (eventbus/router.go).
use go_ddd_core.Prelude.{
  ℕ, String, ◌≡◌, ◌∙◌, Option, none, some, List, [], ◌∷◌, ◌++◌, append_assoc, append-nil, str_eq,
  if◌then◌else◌, arith, Bool-cases, inl, inr,
}
use go_ddd_core.Prelude.Dict.{lookup-insert}
use go_ddd_core.Errors.{Error}
use go_ddd_core.Eventbus.{
  DispatchFunc, Envelope, Verdict, acked, nacked, ack, nack, Router, chain, handlers_of,
  register_handler, run_handlers, dispatch, Signal, envelope, closed, done, Outcome, returned,
  waiting, RunState, handle_envelope, run_loop,
}

-- The verdict of a message whose envelope was handled with the given result.
verdict : Option Error → ℕ → Verdict
verdict none m = acked m
verdict (some y) m = nacked m

-- The envelopes that arrive before the channel closes or the context ends, and how Run then ends.
pub delivered : {E : Type 0} → List (Signal E) → List (Envelope E)
delivered [] = []
delivered (envelope env ∷ rest) = env ∷ delivered rest
delivered (closed ∷ rest) = []
delivered (done e ∷ rest) = []

pub ending : {E : Type 0} → List (Signal E) → Outcome
ending [] = waiting
ending (envelope env ∷ rest) = ending rest
ending (closed ∷ rest) = returned none
ending (done e ∷ rest) = returned (some e)

module _ {E S : Type 0} where
  -- After RegisterHandler the handlers of that name are those from before with the wrapped function
  -- last, and the handlers of every other name are those from before.
  handlers_of-register_handler :
      (name j : String) (fn : DispatchFunc E S) (r : Router E S)
      → handlers_of j (register_handler name fn r) ≡ (
          if str_eq name j
          then handlers_of name r ++ chain r.middlewares fn ∷ []
          else handlers_of j r)
  unfolding handlers_of register_handler
  handlers_of-register_handler name j fn r =
      rw (lookup-insert name j _ r.handlers)
        (elim (Bool-cases (str_eq name j)) [ inl hit ↦ rw hit | inr miss ↦ rw miss ])

  run_handlers_failing :
      (fs gs : List (DispatchFunc E S)) (g : DispatchFunc E S) (e : E) (s t u : S) (y : Error)
      → run_handlers fs e s ≡ (t, none)
      → g e t ≡ (u, some y)
      → run_handlers (fs ++ g ∷ gs) e s ≡ (u, some y)
  unfolding run_handlers
  run_handlers_failing [] gs g e s t u y p q = ground arith
  run_handlers_failing (f ∷ fs) gs g e s t u y p q =
      ground (arith, run_handlers_failing fs gs g e (f e s).0 t u y)

  -- If the handlers of an event's name before one of them succeed and that one fails, its error is the
  -- result, the state is the one that it left, and the handlers after it do not run.
  dispatch_failing :
      (r : Router E S) (env : Envelope E) (fs gs : List (DispatchFunc E S)) (g : DispatchFunc E S)
      (s t u : S) (y : Error)
      → handlers_of env.name r ≡ fs ++ g ∷ gs
      → run_handlers fs env.event s ≡ (t, none)
      → g env.event t ≡ (u, some y)
      → dispatch r env s ≡ (u, some y)
  unfolding dispatch
  dispatch_failing r env [] gs g s t u y h p q =
      rw h (run_handlers_failing [] gs g env.event s t u y p q)
  dispatch_failing r env (f ∷ fs) gs g s t u y h p q =
      rw h (run_handlers_failing (f ∷ fs) gs g env.event s t u y p q)

  -- What one envelope adds to the log.
  settled : Router E S → Envelope E → S → List Verdict
  settled r env s = elim env.raw [ none ↦ [] | some m ↦ verdict (dispatch r env s).1 m ∷ [] ]

  -- The state and the log when each envelope is dispatched in turn and settled by its result.
  pub settle_all : Router E S → List (Envelope E) → S → S × List Verdict
  settle_all r [] s = (s, [])
  settle_all r (env ∷ envs) s =
      let (s', log) = settle_all r envs (dispatch r env s).0 in (s', settled r env s ++ log)

  handle_envelope_lem :
      (r : Router E S) (env : Envelope E) (st : RunState S)
      → handle_envelope r env st
        ≡ record { state = (dispatch r env st.state).0; log = st.log ++ settled r env st.state }
  unfolding handle_envelope ack nack settled verdict
  handle_envelope_lem r env st = ground (arith, append-nil st.log)

  -- Run handles the envelopes that arrive before the channel closes or the context ends, in order and
  -- each once: a message is acked if its dispatch returned nil and nacked if it returned an error, an
  -- envelope without a message leaves no trace, and a failed dispatch does not stop the loop. Run
  -- then returns nil for a closed channel and the context's error for an ended context.
  pub run_loop-settle_all :
      (r : Router E S) (signals : List (Signal E)) (st : RunState S)
      → let (s, log) = settle_all r (delivered signals) st.state in
        run_loop r signals st ≡ (record { state = s; log = st.log ++ log }, ending signals)
  unfolding run_loop settle_all delivered ending
  run_loop-settle_all r [] st = rw (append-nil st.log)
  run_loop-settle_all r (closed ∷ rest) st = rw (append-nil st.log)
  run_loop-settle_all r (done e ∷ rest) st = rw (append-nil st.log)
  run_loop-settle_all r (envelope env ∷ rest) st = rw (handle_envelope_lem r env st) (
      run_loop-settle_all r rest
        (record { state = (dispatch r env st.state).0; log = st.log ++ settled r env st.state })
      ∙ rw append_assoc)
