-- ===== src/Ports/Inbox.antt =====
-- eventbus/inbox.go: the key, the interface, and what its documentation promises as a model: the keys
-- that have been recorded.
pub mod Suite
pub mod Laws
use go_ddd_core.Prelude.{
  String, Bool, true, false, ◌&&◌, ◌||◌, Option, none, some, List, [], ◌∷◌, str_eq,
}
use go_ddd_core.Errors.{Error, plain, to_error}
use go_ddd_core.Errorsx
use go_ddd_core.Errorsx.{code_invalid_argument}
use go_ddd_core.Ports.Contexts.{Context, context_error, Failure, observe_option}

pub record InboxKey : Type 0 where
  pub consumer : String
  pub event_id : String

-- `ErrAlreadyRecorded`
abbrev pub err_already_recorded : Error
err_already_recorded = plain "eventbus: inbox key already recorded"

-- `Inbox`, of an implementation with the state `S`.
pub record Inbox (S : Type 0) : Type 0 where
  pub seen : Context → InboxKey → S → S × Bool × Option Error
  pub record_key : Context → InboxKey → S → S × Option Error

-- The calls of the interface, and what a suite sees of a reply.
pub data InboxCall : Type 0 where
  seen : Context → InboxKey → InboxCall
  record_key : Context → InboxKey → InboxCall

abbrev pub InboxReply : InboxCall → Type 0
InboxReply (seen ctx key) = Bool × Option Failure
InboxReply (record_key ctx key) = Option Failure

abbrev pub sentinel_text : String
sentinel_text = "eventbus: inbox key already recorded"

abbrev pub inbox_step : {S : Type 0} → Inbox S → (c : InboxCall) → S → S × InboxReply c
inbox_step inbox (seen ctx key) s =
    let (s', b, e) = inbox.seen ctx key s in (s', (b, observe_option sentinel_text e))
inbox_step inbox (record_key ctx key) s =
    let (s', e) = inbox.record_key ctx key s in (s', observe_option sentinel_text e)

abbrev pub key_eq : InboxKey → InboxKey → Bool
key_eq a b = str_eq a.consumer b.consumer && str_eq a.event_id b.event_id

abbrev pub recorded : InboxKey → List InboxKey → Bool
recorded key [] = false
recorded key (k ∷ ks) = key_eq k key || recorded key ks

-- The precedence of the two methods: the key, then the context, then `k`.
abbrev pub checked : {A : Type 0} → Context → InboxKey → (Option Error → A) → A → A
checked ctx key failed k = elim (str_eq key.consumer "" || str_eq key.event_id "") [
  | true ↦ failed (some (to_error (Errorsx.new code_invalid_argument "empty consumer or event id")))
  | false ↦ elim (context_error ctx) [ some e ↦ failed (some e) | none ↦ k ]
]

-- The contract of `Inbox` as an inbox.
unfoldable pub inbox_contract : Inbox (List InboxKey)
inbox_contract = record {
  seen = λ ctx key ks. checked ctx key (λ e. (ks, false, e)) (ks, recorded key ks, none);
  record_key = λ ctx key ks.
      checked ctx key (λ e. (ks, e))
        (elim (recorded key ks) [
          | true ↦ (ks, some err_already_recorded)
          | false ↦ (key ∷ ks, none)
        ]);
}

-- An implementation keeps the contract: under a view of its state, every call replies what the contract
-- replies, up to what errorsx.CodeOf and errors.Is tell of an error.
abbrev pub Conforms : {S : Type 0} → Inbox S → (S → List InboxKey) → Type 0
Conforms inbox view =
    go_ddd_core.Ports.Suite.Follows (inbox_step inbox) (inbox_step inbox_contract) view
