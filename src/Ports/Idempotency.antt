-- ===== src/Ports/Idempotency.antt =====
-- ports/idempotency/idempotency.go: the interface of a store, over a world of byte slices and a clock,
-- and the calls that a suite makes.
pub mod Fake
pub mod Checks
pub mod Suite
pub mod Reclaim
pub mod Polling
pub mod Laws
use go_ddd_core.Prelude.{ℕ, ◌+◌, String, Option, none, some, List}
use go_ddd_core.Prelude.Int.{ℤ, pos}
use go_ddd_core.Errors.{Error}
use go_ddd_core.Ports.{Reservation, ReservationStatus, status_unknown}
use go_ddd_core.Ports.Slices.{Slices, alloc, write_byte, read_slice}
use go_ddd_core.Ports.Contexts.{Context, Failure, observe_option}

-- The slices that have been made, and the time in nanoseconds.
pub record World : Type 0 where
  pub heap : Slices
  pub now : ℕ

-- `Reservation{Scope: scope, Key: key, Status: status}`
abbrev pub reservation : String → String → ReservationStatus → Reservation
reservation scope key status = record {
  scope = scope;
  key = key;
  lease_token = "";
  lease_ttl = pos 0;
  status = status;
  response = none;
}

-- `Reservation{}`
abbrev pub no_reservation : Reservation
no_reservation = reservation "" "" status_unknown

-- `Store`, of an implementation with the state `S`.
pub record Store (S : Type 0) : Type 0 where
  pub begin :
      Context → String → String → String → S × World → (S × World) × (Reservation × Option Error)
  pub finish : Context → Reservation → Option ℕ → S × World → (S × World) × Option Error
  pub cancel : Context → Reservation → S × World → (S × World) × Option Error

-- The calls of the interface, what a caller does with its own slices, and its clock.
pub data StoreCall : Type 0 where
  begin : Context → String → String → String → StoreCall
  finish : Context → Reservation → Option ℕ → StoreCall
  cancel : Context → Reservation → StoreCall
  make : List ℕ → StoreCall
  read : Option ℕ → StoreCall
  poke : ℕ → ℕ → ℕ → StoreCall
  now : StoreCall
  sleep : ℕ → StoreCall

abbrev pub StoreReply : StoreCall → Type 0
StoreReply (begin ctx scope key fingerprint) = Reservation × Option Failure
StoreReply (finish ctx res response) = Option Failure
StoreReply (cancel ctx res) = Option Failure
StoreReply (make bs) = ℕ
StoreReply (read r) = List ℕ
StoreReply (poke r i b) = Unit
StoreReply now = ℕ
StoreReply (sleep d) = Unit

-- The port has no sentinel. A sleep takes just as long as it is asked to.
abbrev pub store_step :
    {S : Type 0} → Store S → (c : StoreCall) → S × World → (S × World) × StoreReply c
store_step o (begin ctx scope key fingerprint) w =
    let (w', (r, e)) = o.begin ctx scope key fingerprint w in (w', (r, observe_option "" e))
store_step o (finish ctx res response) w =
    let (w', e) = o.finish ctx res response w in (w', observe_option "" e)
store_step o (cancel ctx res) w = let (w', e) = o.cancel ctx res w in (w', observe_option "" e)
store_step o (make bs) (s, w) = let (r, h) = alloc bs w.heap in ((s, record w { heap = h }), r)
store_step o (read r) (s, w) = ((s, w), read_slice r w.heap)
store_step o (poke r i b) (s, w) = ((s, record w { heap = write_byte r i b w.heap }), tt)
store_step o now (s, w) = ((s, w), w.now)
store_step o (sleep d) (s, w) = ((s, record w { now = w.now + d }), tt)
