-- ===== src/Ports/Jobs/Delivery.antt =====
-- The data of ports/jobs/jobs.go that a running worker deals in, and what the suite of
-- ports/jobs/jobstest/delivery.go runs on: workers over one store, the handlers of a test with the
-- variables that they capture, and the waits of the test, which are the only places where time passes.
-- One instant is one unit of time; the test and the store read one clock.
pub mod Suite
pub mod Rejects
use mathlib.Core.Option
use go_ddd_core.Prelude.{
  ℕ, zero, suc, ◌+◌, String, Option, none, some, List, [], ◌∷◌, ◌++◌, length, get_elem?, ◌==◌,
  if◌then◌else◌,
}
use go_ddd_core.Errors.{Error}
use go_ddd_core.Ports.Contexts.{Context, Failure, observe_option, err_canceled}
use go_ddd_core.Ports.Jobs.{Job, JobInfo}

pub record Task : Type 0 where
  pub id : String
  pub task_type : String
  pub payload : List ℕ

-- What a handler sends to its test: an empty struct, a time, a text or an error.
pub data Signal : Type 0 where
  pulse : Signal
  instant : ℕ → Signal
  text : List ℕ → Signal
  ctx_error : Error → Signal

-- The variables that the handlers of a subtest capture: a counter, the identifiers seen, and the
-- contents of the two channels.
pub record Captured : Type 0 where
  pub attempts : ℕ
  pub seen : List String
  pub first : List Signal
  pub second : List Signal

abbrev pub nothing_captured : Captured
nothing_captured = record { attempts = 0; seen = []; first = []; second = [] }

-- How a call of `Handle` ends: it returns, it is stuck for the rest of the subtest, or it waits for its
-- context to end and goes on with the context's error.
pub data Outcome : Type 0 where
  returned : Option Error → Outcome
  stuck : Outcome
  until_done : (Error → Captured → Captured × Option Error) → Outcome

-- `jobs.Handler` of a test: from the time, the task and the captured variables, what it captures, the
-- bytes that it leaves in the payload's slice, and how it ends.
abbrev pub Handler : Type 0
Handler = ℕ → Task → Captured → Captured × (List ℕ × Outcome)

-- What the workers of a store do in an instant: call a handler, end the context of a call, or return
-- from `Run`. Handlers, calls and workers are known by numbers.
pub data Event : Type 0 where
  dispatch : ℕ → ℕ → Task → Event
  ctx_done : ℕ → Event
  run_returned : ℕ → Option Error → Event

-- An implementation: `Enqueuer`, the factory of workers, `Register` and `Run` of a worker, the cancel
-- function of the context that `Run` has, the step of the workers to an instant, and what a handler does
-- to the store: it writes to the slice of a call, and it returns.
pub record DeliveryBackend (S : Type 0) : Type 0 where
  pub enqueue : Context → Job → S → S × (JobInfo × Option Error)
  pub new_worker : S → S × ℕ
  pub register : ℕ → String → Option ℕ → S → S × Option Error
  pub run : ℕ → S → S
  pub cancel : ℕ → S → S
  pub advance : ℕ → S → S × List Event
  pub wrote : ℕ → List ℕ → S → S
  pub finish : ℕ → Option Error → S → S

abbrev pub Continuation : Type 0
Continuation = Error → Captured → Captured × Option Error

-- A store with a test around it: the clock, the captured variables, the handlers by their numbers, the
-- calls that wait for their contexts, and the values on the channels of `runWorker`.
pub record World (S : Type 0) : Type 0 where
  pub store : S
  pub now : ℕ
  pub captured : Captured
  pub handlers : List Handler
  pub waiting : List (ℕ × Continuation)
  pub returns : List (ℕ × Option Error)

abbrev pub new_world : {S : Type 0} → S → ℕ → World S
new_world s now = record {
  store = s;
  now = now;
  captured = nothing_captured;
  handlers = [];
  waiting = [];
  returns = [];
}

abbrev pub find {ℓ} : {A : Type ℓ} → ℕ → List (ℕ × A) → Option A
find n [] = none
find n ((m, x) ∷ xs) = if m == n then some x else find n xs

module _ {S : Type 0} (b : DeliveryBackend S) where
  abbrev pub after_handler : ℕ → Captured × (List ℕ × Outcome) → World S → World S
  after_handler d (c, (bytes, returned e)) w = record w {
    store = b.finish d e (b.wrote d bytes w.store);
    captured = c;
  }
  after_handler d (c, (bytes, stuck)) w = record w { store = b.wrote d bytes w.store; captured = c }
  after_handler d (c, (bytes, until_done k)) w = record w {
    store = b.wrote d bytes w.store;
    captured = c;
    waiting = (d, k) ∷ w.waiting;
  }

  abbrev pub call_handler : Option Handler → ℕ → Task → World S → World S
  call_handler none d task w = w
  call_handler (some f) d task w = after_handler d (f w.now task w.captured) w

  abbrev pub after_wait : ℕ → Captured × Option Error → World S → World S
  after_wait d (c, e) w = record w { store = b.finish d e w.store; captured = c }

  abbrev pub end_wait : Option Continuation → ℕ → World S → World S
  end_wait none d w = w
  end_wait (some k) d w = after_wait d (k err_canceled w.captured) w

  unfoldable pub handle_event : Event → World S → World S
  handle_event (dispatch h d task) w = call_handler (get_elem? w.handlers h) d task w
  handle_event (ctx_done d) w = end_wait (find d w.waiting) d w
  handle_event (run_returned n e) w = record w { returns = (n, e) ∷ w.returns }

  unfoldable pub handle_events : List Event → World S → World S
  handle_events [] w = w
  handle_events (e ∷ es) w = handle_events es (handle_event e w)

  abbrev pub after_advance : World S → S × List Event → World S
  after_advance w (s, es) = handle_events es (record w { store = s; now = suc w.now })

  -- Time passes to the next instant.
  unfoldable pub tick : World S → World S
  tick w = after_advance w (b.advance (suc w.now) w.store)

  -- `select` between a channel and `time.After(d)`: the first message within `d`. What is ready in a
  -- world is the rest of it with the message.
  unfoldable pub await :
      {M : Type 0}
      → (World S → Option (World S × M))
      → Option (World S × M)
      → ℕ
      → World S
      → World S × Option M
  await ready (some (w', m)) d w = (w', some m)
  await ready none zero w = (w, none)
  await ready none (suc d) w = await ready (ready (tick w)) d (tick w)

pub data Channel : Type 0 where
  first : Channel
  second : Channel

module _ {S : Type 0} where
  abbrev take_first : List Signal → World S → Option (World S × Signal)
  take_first [] w = none
  take_first (m ∷ ms) w = some (record w { captured = record w.captured { first = ms } }, m)

  abbrev take_second : List Signal → World S → Option (World S × Signal)
  take_second [] w = none
  take_second (m ∷ ms) w = some (record w { captured = record w.captured { second = ms } }, m)

  -- What a channel holds.
  abbrev pub ready_on : Channel → World S → Option (World S × Signal)
  ready_on first w = take_first w.captured.first w
  ready_on second w = take_second w.captured.second w

  abbrev either : Option (World S × Signal) → World S → Option (World S × Channel)
  either (some (w', m)) w = some (w', first)
  either none w = Option.map (λ (p : World S × Signal). (p.0, second)) (ready_on second w)

  -- `select` between the two channels.
  abbrev pub ready_either : World S → Option (World S × Channel)
  ready_either w = either (ready_on first w) w

  -- What `Run` of a worker has returned.
  abbrev pub ready_return : ℕ → World S → Option (World S × Option Error)
  ready_return n w = Option.map (λ (e : Option Error). (w, e)) (find n w.returns)

-- What the suite calls. A wait has its bound; `register` is given a handler, or nil.
pub data DeliveryCall : Type 0 where
  new_worker : DeliveryCall
  register : ℕ → String → Option Handler → DeliveryCall
  run : ℕ → DeliveryCall
  cancel : ℕ → DeliveryCall
  enqueue : Context → Job → DeliveryCall
  receive : Channel → ℕ → DeliveryCall
  receive_either : ℕ → DeliveryCall
  await_run : ℕ → ℕ → DeliveryCall
  load : DeliveryCall
  clock : DeliveryCall

abbrev pub DeliveryReply : DeliveryCall → Type 0
DeliveryReply new_worker = ℕ
DeliveryReply (register n job_type h) = Option Failure
DeliveryReply (run n) = Unit {0}
DeliveryReply (cancel n) = Unit {0}
DeliveryReply (enqueue ctx job) = JobInfo × Option Failure
DeliveryReply (receive c d) = Option Signal
DeliveryReply (receive_either d) = Option Channel
DeliveryReply (await_run n d) = Option (Option Failure)
DeliveryReply load = Captured
DeliveryReply clock = ℕ

-- `Register`: the handler has the next number.
abbrev pub handler_number : {S : Type 0} → World S → Option Handler → Option ℕ
handler_number w none = none
handler_number w (some f) = some (length w.handlers)

abbrev pub with_handler : {S : Type 0} → Option Handler → World S → World S
with_handler none w = w
with_handler (some f) w = record w { handlers = w.handlers ++ f ∷ [] }

module _ {S : Type 0} (b : DeliveryBackend S) where
  unfoldable pub delivery_step : (c : DeliveryCall) → World S → World S × DeliveryReply c
  delivery_step new_worker w = let (s, n) = b.new_worker w.store in (record w { store = s }, n)
  delivery_step (register n job_type h) w =
      let (s, e) = b.register n job_type (handler_number w h) w.store in
      (with_handler h (record w { store = s }), observe_option "" e)
  delivery_step (run n) w = (record w { store = b.run n w.store }, tt)
  delivery_step (cancel n) w = (record w { store = b.cancel n w.store }, tt)
  delivery_step (enqueue ctx job) w =
      let (s, (info, e)) = b.enqueue ctx job w.store in
      (record w { store = s }, (info, observe_option "" e))
  delivery_step (receive c d) w = await b (ready_on c) (ready_on c w) d w
  delivery_step (receive_either d) w = await b ready_either (ready_either w) d w
  delivery_step (await_run n d) w =
      let (w', r) = await b (ready_return n) (ready_return n w) d w in
      (w', Option.map (observe_option "") r)
  delivery_step load w = (w, w.captured)
  delivery_step clock w = (w, w.now)
