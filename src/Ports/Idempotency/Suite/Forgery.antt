-- ===== src/Ports/Idempotency/Suite/Forgery.antt =====
-- The subtests of ports/idempotency/idempotencytest/idempotencytest.go on reservations that own nothing.
use go_ddd_core.Prelude.{ℕ, String, some, List, [], ◌∷◌}
use go_ddd_core.Prelude.Int.{pos, ◌+ℤ◌}
use go_ddd_core.Ports.{Reservation, status_unknown, status_in_progress, status_completed}
use go_ddd_core.Ports.Contexts.{live, succeeded}
use go_ddd_core.Ports.Suite.{done, renew, call, require}
use go_ddd_core.Ports.Idempotency.{reservation, no_reservation, cancel, make}
use go_ddd_core.Ports.Idempotency.Checks.{
  StoreScript, test_fingerprint, begin_checked, begin_status, require_response, require_conflict,
  require_invalid, finish_bytes, must_finish, forge,
}

abbrev op : String
op = "tenant:op"

unfoldable pub cancel_does_not_delete_completed : StoreScript
cancel_does_not_delete_completed = begin_checked op "k" test_fingerprint λ res.
    must_finish res (107 ∷ 101 ∷ 112 ∷ 116 ∷ []) (
      call (cancel live res) λ e. require_conflict e (
        begin_status op "k" test_fingerprint status_completed
          λ got. require_response got (107 ∷ 101 ∷ 112 ∷ 116 ∷ []) done))

unfoldable pub forged_finish_does_not_overwrite : StoreScript
forged_finish_does_not_overwrite = begin_checked op "k" test_fingerprint λ res.
    finish_bytes (forge res) (101 ∷ 118 ∷ 105 ∷ 108 ∷ []) λ e. require_conflict e (
      begin_status op "k" test_fingerprint status_in_progress λ _.
        must_finish res (114 ∷ 101 ∷ 97 ∷ 108 ∷ []) (
          begin_checked op "k" test_fingerprint
            λ got. require_response got (114 ∷ 101 ∷ 97 ∷ 108 ∷ []) done))

unfoldable pub forged_cancel_does_not_release : StoreScript
forged_cancel_does_not_release = begin_checked op "k" test_fingerprint λ res.
    call (cancel live (forge res)) λ e. require_conflict e (
      begin_status op "k" test_fingerprint status_in_progress
        λ _. call (cancel live res) λ f. require (succeeded f) done)

abbrev malformed : String → String → String → Reservation
malformed scope key token = record (reservation scope key status_unknown) { lease_token = token }

-- The loop over the cases.
abbrev all_malformed : List Reservation → StoreScript → StoreScript
all_malformed [] k = k
all_malformed (res ∷ cases) k =
    finish_bytes res (120 ∷ [])
      λ e. require_invalid e (call (cancel live res) λ f. require_invalid f (all_malformed cases k))

unfoldable pub malformed_reservation_rejected : StoreScript
malformed_reservation_rejected = begin_checked op "k" test_fingerprint λ res.
    all_malformed
      (no_reservation ∷ malformed op "k" "" ∷ malformed "" "k" "tok" ∷ malformed op "" "tok" ∷ [])
      (must_finish res (111 ∷ 107 ∷ []) done)

-- "authoritative"
abbrev authoritative : List ℕ
authoritative = 97 ∷ 117 ∷ 116 ∷ 104 ∷ 111 ∷ 114 ∷ 105 ∷ 116 ∷ 97 ∷ 116 ∷ 105 ∷ 118 ∷ 101 ∷ []

-- `time.Hour` is 3600000000000 nanoseconds; the tampered response is "garbage".
unfoldable pub mutable_fields_are_not_trusted : StoreScript
mutable_fields_are_not_trusted = begin_checked op "k" test_fingerprint λ res.
    call (make (103 ∷ 97 ∷ 114 ∷ 98 ∷ 97 ∷ 103 ∷ 101 ∷ [])) λ garbage.
      must_finish
        (record res {
          lease_ttl = res.lease_ttl +ℤ pos 3600000000000;
          status = status_completed;
          response = some garbage;
        })
        authoritative
        (begin_status op "k" test_fingerprint status_completed λ got.
          require_response got authoritative (
            renew (
              begin_checked op "k" test_fingerprint
                λ valid. finish_bytes (forge valid) authoritative λ e. require_conflict e done)))

unfoldable pub duplicate_finish_does_not_overwrite : StoreScript
duplicate_finish_does_not_overwrite = begin_checked op "k" test_fingerprint λ res.
    must_finish res (102 ∷ 105 ∷ 114 ∷ 115 ∷ 116 ∷ []) (
      finish_bytes res (115 ∷ 101 ∷ 99 ∷ 111 ∷ 110 ∷ 100 ∷ []) λ e. require_conflict e (
        begin_checked op "k" test_fingerprint
          λ got. require_response got (102 ∷ 105 ∷ 114 ∷ 115 ∷ 116 ∷ []) done))
