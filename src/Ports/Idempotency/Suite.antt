-- ===== src/Ports/Idempotency/Suite.antt =====
-- The deterministic suite of ports/idempotency/idempotencytest/idempotencytest.go, subtest by subtest;
-- a text of the suite is its bytes.
pub mod Forgery
use go_ddd_core.Prelude.{
  ℕ, zero, suc, ◌+◌, String, Bool, true, false, ◌&&◌, ◌||◌, not, Option, none, some, List, [], ◌∷◌,
  ◌++◌, length, ◌==◌, str_eq, is_some,
}
use go_ddd_core.Ports.{
  Reservation, status_new, status_in_progress, status_completed, status_mismatch, status_unknown,
}
use go_ddd_core.Ports.Contexts.{live, cancelled, expired, Failure, is_canceled, is_late, succeeded}
use go_ddd_core.Ports.Suite.{Script, done, fatal, call, require, expect}
use go_ddd_core.Ports.Idempotency.{StoreCall, StoreReply, begin, finish, cancel, make, read, poke}
use go_ddd_core.Ports.Idempotency.Checks.{
  StoreScript, test_fingerprint, begin_checked, begin_status, require_status, require_response,
  require_conflict, require_invalid, finish_bytes, must_finish, is_zero,
}
use go_ddd_core.Ports.Idempotency.Suite.Forgery.{
  forged_finish_does_not_overwrite, forged_cancel_does_not_release, malformed_reservation_rejected,
  mutable_fields_are_not_trusted, duplicate_finish_does_not_overwrite,
  cancel_does_not_delete_completed,
}

abbrev op : String
op = "tenant:op"

unfoldable pub first_begin_reserves_new : StoreScript
first_begin_reserves_new =
    begin_status op "k" test_fingerprint status_new
      λ res. require (not (str_eq res.lease_token "")) done

-- "response-A" and "response-B"
abbrev payload : ℕ → List ℕ
payload c = 114 ∷ 101 ∷ 115 ∷ 112 ∷ 111 ∷ 110 ∷ 115 ∷ 101 ∷ 45 ∷ c ∷ []

unfoldable pub cross_scope_isolation : StoreScript
cross_scope_isolation = begin_checked "tenantA:create" "k" test_fingerprint λ a.
    begin_checked "tenantB:create" "k" test_fingerprint λ b. require_status a status_new (
      require_status b status_new (
        require (not (str_eq a.lease_token b.lease_token)) (
          must_finish a (payload 65) (
            begin_status "tenantA:create" "k" test_fingerprint status_completed λ done_a.
              require_response done_a (payload 65) (
                begin_status "tenantB:create" "k" test_fingerprint status_in_progress λ _.
                  must_finish b (payload 66) (
                    begin_status "tenantB:create" "k" test_fingerprint status_completed
                      λ done_b. require_response done_b (payload 66) done))))))

unfoldable pub tuple_separation_safety : StoreScript
tuple_separation_safety = begin_status op "k" test_fingerprint status_new λ res_1.
    must_finish res_1 (102 ∷ 105 ∷ 114 ∷ 115 ∷ 116 ∷ []) (
      begin_status "tenant" "op:k" test_fingerprint status_new λ res_2.
        require (not (str_eq res_1.lease_token res_2.lease_token)) (
          begin_status op "k" test_fingerprint status_completed
            λ _. begin_status "tenant" "op:k" test_fingerprint status_in_progress λ _. done))

abbrev member : String → List String → Bool
member k [] = false
member k (j ∷ js) = str_eq j k || member k js

-- `addToken(tok)`
abbrev add_token : String → List String → (List String → StoreScript) → StoreScript
add_token tok seen k =
    require (not (str_eq tok "")) (require (not (member tok seen)) (k (tok ∷ seen)))

-- The tokens of a Begin of each key.
abbrev add_tokens : List String → List String → (List String → StoreScript) → StoreScript
add_tokens [] seen k = k seen
add_tokens (key ∷ keys) seen k =
    begin_checked op key test_fingerprint
      λ res. add_token res.lease_token seen λ seen'. add_tokens keys seen' k

unfoldable pub lease_token_uniqueness : StoreScript
lease_token_uniqueness = add_tokens ("a" ∷ "b" ∷ "c" ∷ "d" ∷ "e" ∷ []) [] λ seen.
    begin_checked op "reuse" test_fingerprint λ r_1. add_token r_1.lease_token seen λ seen_1.
      call (cancel live r_1) λ e. require (succeeded e) (
        begin_checked op "reuse" test_fingerprint λ r_2. add_token r_2.lease_token seen_1 λ seen_2.
          finish_bytes r_1 (120 ∷ []) λ f.
            require_conflict f
              (call (cancel live r_1) λ g. require_conflict g (must_finish r_2 (121 ∷ []) done)))

abbrev pub carries_no_lease : Reservation → StoreScript
carries_no_lease res = require (str_eq res.lease_token "" && is_zero res.lease_ttl) done

unfoldable pub in_progress_on_duplicate_begin : StoreScript
in_progress_on_duplicate_begin =
    begin_checked op "k" test_fingerprint
      λ _. begin_status op "k" test_fingerprint status_in_progress λ res. carries_no_lease res

-- "the-stored-response"
abbrev stored_response : List ℕ
stored_response =
    116 ∷ 104 ∷ 101 ∷ 45 ∷ 115 ∷ 116 ∷ 111 ∷ 114 ∷ 101 ∷ 100 ∷ 45 ∷ 114 ∷ 101 ∷ 115 ∷ 112 ∷ 111
    ∷ 110 ∷ 115 ∷ 101 ∷ []

unfoldable pub completed_replays_response : StoreScript
completed_replays_response = begin_checked op "k" test_fingerprint λ res.
    must_finish res stored_response (
      begin_status op "k" test_fingerprint status_completed
        λ got. require_response got stored_response done)

unfoldable pub completed_empty_response_is_valid : StoreScript
completed_empty_response_is_valid = begin_checked op "k" test_fingerprint λ res.
    call (finish live res none) λ e. require (succeeded e) (
      begin_status op "k" test_fingerprint status_completed
        λ got. call (read got.response) λ bs. require (length bs == 0) done)

unfoldable pub fingerprint_mismatch_in_progress : StoreScript
fingerprint_mismatch_in_progress =
    begin_checked op "k" "fp-A" λ _.
      begin_status op "k" "fp-B" status_mismatch λ got. require (not (is_some got.response)) done

unfoldable pub fingerprint_mismatch_completed : StoreScript
fingerprint_mismatch_completed = begin_checked op "k" "fp-A" λ res.
    must_finish res (115 ∷ 101 ∷ 99 ∷ 114 ∷ 101 ∷ 116 ∷ 45 ∷ 65 ∷ [])
      (begin_status op "k" "fp-B" status_mismatch λ got. require (not (is_some got.response)) done)

unfoldable pub cancel_then_begin_is_new : StoreScript
cancel_then_begin_is_new = begin_checked op "k" test_fingerprint λ res.
    call (cancel live res)
      λ e. require (succeeded e) (begin_status op "k" test_fingerprint status_new λ _. done)

unfoldable pub per_status_field_invariants : StoreScript
per_status_field_invariants = begin_status op "k" test_fingerprint status_new λ new_res.
    begin_status op "k" test_fingerprint status_in_progress λ _.
      begin_status op "k" "other-fp" status_mismatch λ _.
        must_finish new_res (100 ∷ 111 ∷ 110 ∷ 101 ∷ [])
          (begin_status op "k" test_fingerprint status_completed λ _. done)

-- "original"
abbrev original : List ℕ
original = 111 ∷ 114 ∷ 105 ∷ 103 ∷ 105 ∷ 110 ∷ 97 ∷ 108 ∷ []

-- `got.Response[0] = 'Y'`, which panics on nil.
abbrev poke_response : Option ℕ → StoreScript → StoreScript
poke_response none k = fatal
poke_response (some r) k = call (poke r 0 89) λ _. k

unfoldable pub copy_semantics : StoreScript
copy_semantics = begin_checked op "k" test_fingerprint λ res. call (make original) λ buf.
    call (finish live res (some buf)) λ e. require (succeeded e) (
      call (poke buf 0 88) λ _. begin_checked op "k" test_fingerprint λ got.
        require_response got original (
          poke_response got.response
            (begin_checked op "k" test_fingerprint λ again. require_response again original done)))

unfoldable pub malformed_begin_rejected : StoreScript
malformed_begin_rejected = call (begin live "" "k" test_fingerprint) λ (_, e). require_invalid e (
    call (begin live op "" test_fingerprint)
      λ (_, f). require_invalid f (call (begin live op "k" "") λ (_, g). require_invalid g done))

-- The eight Begins, each atomic, in whatever order the goroutines take; `count` of them were new and
-- `tok` is the token of the last of these.
unfoldable pub claims : ℕ → ℕ → String → StoreScript
claims zero count tok = require (count == 1) (require (not (str_eq tok "")) done)
claims (suc n) count tok = call (begin live op "k" test_fingerprint) λ (res, e).
    require (succeeded e) (elim res.status [
      | status_new ↦ claims n (suc count) res.lease_token
      | status_in_progress ↦ claims n count tok
      | _ ↦ fatal
    ])

unfoldable pub concurrent_begin_claims_once : StoreScript
unfolding claims
concurrent_begin_claims_once = claims 8 0 ""

unfoldable pub context_cancellation_is_deterministic : StoreScript
context_cancellation_is_deterministic = begin_checked op "k" test_fingerprint λ res.
    call (begin cancelled op "other" test_fingerprint) λ (_, e). expect (is_canceled e) (
      call (make (120 ∷ [])) λ r. call (finish cancelled res (some r)) λ f. expect (is_canceled f) (
        call (cancel cancelled res) λ g.
          expect (is_canceled g)
            (call (begin expired op "other" test_fingerprint) λ (_, h). expect (is_late h) done)))

-- `RunStoreContract`
unfoldable pub run_store_contract : List StoreScript
unfolding first_begin_reserves_new cross_scope_isolation tuple_separation_safety
    lease_token_uniqueness in_progress_on_duplicate_begin completed_replays_response
    completed_empty_response_is_valid fingerprint_mismatch_in_progress
    fingerprint_mismatch_completed cancel_then_begin_is_new cancel_does_not_delete_completed
    forged_finish_does_not_overwrite forged_cancel_does_not_release malformed_reservation_rejected
    mutable_fields_are_not_trusted per_status_field_invariants duplicate_finish_does_not_overwrite
    copy_semantics malformed_begin_rejected concurrent_begin_claims_once
    context_cancellation_is_deterministic
run_store_contract =
    first_begin_reserves_new ∷ cross_scope_isolation ∷ tuple_separation_safety
    ∷ lease_token_uniqueness ∷ in_progress_on_duplicate_begin ∷ completed_replays_response
    ∷ completed_empty_response_is_valid ∷ fingerprint_mismatch_in_progress
    ∷ fingerprint_mismatch_completed ∷ cancel_then_begin_is_new ∷ cancel_does_not_delete_completed
    ∷ forged_finish_does_not_overwrite ∷ forged_cancel_does_not_release
    ∷ malformed_reservation_rejected ∷ mutable_fields_are_not_trusted ∷ per_status_field_invariants
    ∷ duplicate_finish_does_not_overwrite ∷ copy_semantics ∷ malformed_begin_rejected
    ∷ concurrent_begin_claims_once ∷ context_cancellation_is_deterministic ∷ []
