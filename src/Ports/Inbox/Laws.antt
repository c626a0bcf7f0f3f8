-- ===== src/Ports/Inbox/Laws.antt =====
-- The suite of eventbus/inboxtest against the contract of eventbus/inbox.go.
use go_ddd_core.Prelude.{true, ◌≡◌, refl, ◌∙◌, List, [], ◌∷◌, arith, none, false}
use go_ddd_core.Errors.{as_coded, error_is}
use go_ddd_core.Errorsx
use go_ddd_core.Errorsx.{code_of}
use go_ddd_core.Ports.Contexts.{live, observe}
use go_ddd_core.Ports.Suite.{passes, run_suite, run_suite-Follows, run_suite_failing}
use go_ddd_core.Ports.Inbox.{InboxKey, Inbox, inbox_step, inbox_contract, Conforms}
use go_ddd_core.Ports.Inbox.Suite.{
  run_contract, key, seen_unrecorded_returns_false, record_then_seen_returns_true,
  duplicate_record_returns_err_already_recorded,
}

run_contract-inbox_contract : run_suite (inbox_step inbox_contract) [] run_contract ≡ true
unfolding run_suite passes run_contract inbox_contract observe code_of as_coded error_is Errorsx.new
run_contract-inbox_contract = refl

-- The suite rejects no inbox that keeps the contract: an implementation that replies as the contract
-- says under some view of its state, and starts empty, passes every subtest.
run_contract-Conforms :
    {S : Type 0} (inbox : Inbox S) (view : S → List InboxKey) (start : S)
    → Conforms inbox view
    → view start ≡ []
    → run_suite (inbox_step inbox) start run_contract ≡ true
run_contract-Conforms inbox view start sim empty =
    run_suite-Follows (inbox_step inbox) (inbox_step inbox_contract) view start sim run_contract
    ∙ rw empty run_contract-inbox_contract

duplicate_fails :
    {S : Type 0} (inbox : Inbox S) (start : S)
    → (inbox.record_key live key (inbox.record_key live key start).0).1 ≡ none
    → passes (inbox_step inbox) start duplicate_record_returns_err_already_recorded start ≡ false
unfolding passes duplicate_record_returns_err_already_recorded
duplicate_fails inbox start silent = ground arith

-- The suite rejects every inbox that keeps a second Record of a recorded key silent, whatever else it
-- does.
run_contract_silent_duplicate :
    {S : Type 0} (inbox : Inbox S) (start : S)
    → (inbox.record_key live key (inbox.record_key live key start).0).1 ≡ none
    → run_suite (inbox_step inbox) start run_contract ≡ false
unfolding run_contract
run_contract_silent_duplicate inbox start silent =
    run_suite_failing (inbox_step inbox) start
      (seen_unrecorded_returns_false ∷ record_then_seen_returns_true ∷ []) _
      duplicate_record_returns_err_already_recorded (duplicate_fails inbox start silent)
