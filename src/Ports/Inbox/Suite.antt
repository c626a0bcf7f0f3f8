-- ===== src/Ports/Inbox/Suite.antt =====
-- eventbus/inboxtest/inboxtest.go, subtest by subtest.
use go_ddd_core.Prelude.{Option, String, Bool, ◌&&◌, not, List, [], ◌∷◌, str_eq}
use go_ddd_core.Errorsx.{code_invalid_argument}
use go_ddd_core.Ports.Contexts.{
  live, cancelled, Failure, failure_code, is_canceled, is_sentinel, succeeded,
}
use go_ddd_core.Ports.Suite.{Script, done, call, require}
use go_ddd_core.Ports.Inbox.{InboxKey, InboxCall, InboxReply, seen, record_key}

abbrev InboxScript : Type 0
InboxScript = Script InboxCall InboxReply

abbrev pub inbox_key : String → String → InboxKey
inbox_key c e = record { consumer = c; event_id = e }

abbrev pub key : InboxKey
key = inbox_key "consumer-a" "evt-1"

unfoldable pub seen_unrecorded_returns_false : InboxScript
seen_unrecorded_returns_false =
    call (seen live key) λ (b, e). require (succeeded e) (require (not b) done)

unfoldable pub record_then_seen_returns_true : InboxScript
record_then_seen_returns_true = call (record_key live key) λ e.
    require (succeeded e) (call (seen live key) λ (b, f). require (succeeded f) (require b done))

unfoldable pub duplicate_record_returns_err_already_recorded : InboxScript
duplicate_record_returns_err_already_recorded =
    call (record_key live key)
      λ e. require (succeeded e) (call (record_key live key) λ f. require (is_sentinel f) done)

unfoldable pub per_consumer_isolation : InboxScript
per_consumer_isolation = call (record_key live (inbox_key "consumer-a" "evt-shared")) λ e.
    require (succeeded e) (
      call (record_key live (inbox_key "consumer-b" "evt-shared")) λ f. require (succeeded f) (
        call (seen live (inbox_key "consumer-b" "evt-shared"))
          λ (b, g). require (succeeded g && b) done))

unfoldable pub per_event_isolation : InboxScript
per_event_isolation = call (record_key live (inbox_key "consumer-a" "evt-1")) λ e.
    require (succeeded e)
      (call (record_key live (inbox_key "consumer-a" "evt-2")) λ f. require (succeeded f) done)

-- `errorsx.CodeOf(err) == errorsx.CodeInvalidArgument`
abbrev is_invalid : Option Failure → Bool
is_invalid e = str_eq (failure_code e) code_invalid_argument

unfoldable pub empty_consumer_invalid_argument : InboxScript
empty_consumer_invalid_argument = call (seen live (inbox_key "" "evt-1")) λ (b, e).
    require (is_invalid e)
      (call (record_key live (inbox_key "" "evt-1")) λ f. require (is_invalid f) done)

unfoldable pub empty_event_id_invalid_argument : InboxScript
empty_event_id_invalid_argument = call (seen live (inbox_key "consumer-a" "")) λ (b, e).
    require (is_invalid e)
      (call (record_key live (inbox_key "consumer-a" "")) λ f. require (is_invalid f) done)

unfoldable pub empty_key_precedes_cancelled_ctx : InboxScript
empty_key_precedes_cancelled_ctx =
    call (record_key cancelled (inbox_key "" "evt-1")) λ e. require (is_invalid e) done

unfoldable pub valid_key_cancelled_ctx_returns_ctx_error : InboxScript
valid_key_cancelled_ctx_returns_ctx_error = call (seen cancelled key) λ (b, e).
    require (is_canceled e) (call (record_key cancelled key) λ f. require (is_canceled f) done)

-- `RunContract`
unfoldable pub run_contract : List InboxScript
unfolding seen_unrecorded_returns_false record_then_seen_returns_true
    duplicate_record_returns_err_already_recorded per_consumer_isolation per_event_isolation
    empty_consumer_invalid_argument empty_event_id_invalid_argument empty_key_precedes_cancelled_ctx
    valid_key_cancelled_ctx_returns_ctx_error
run_contract =
    seen_unrecorded_returns_false ∷ record_then_seen_returns_true
    ∷ duplicate_record_returns_err_already_recorded ∷ per_consumer_isolation ∷ per_event_isolation
    ∷ empty_consumer_invalid_argument ∷ empty_event_id_invalid_argument
    ∷ empty_key_precedes_cancelled_ctx ∷ valid_key_cancelled_ctx_returns_ctx_error ∷ []
