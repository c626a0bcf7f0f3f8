-- ===== src/Ports/Idempotency/Laws.antt =====
-- The suite of ports/idempotency/idempotencytest/idempotencytest.go against the reference store of
-- idempotencytest_test.go beside it.
use go_ddd_core.Prelude.{String, true, not, is_some, str_eq, false, ◌≡◌, refl, ◌∙◌, [], ◌∷◌, arith}
use go_ddd_core.Errors.{as_coded, error_is, error_text}
use go_ddd_core.Errorsx
use go_ddd_core.Errorsx.{code_of}
use go_ddd_core.Ports.{
  Reservation, ReservationStatus, status_unknown, status_new, status_in_progress, status_completed,
  status_mismatch,
}
use go_ddd_core.Ports.Slices.{no_slices}
use go_ddd_core.Ports.Contexts.{live, observe, succeeded}
use go_ddd_core.Ports.Suite.{
  passes, run_suite, run_suite-Follows, run_suite_failing, Follows, expect, expect_fails,
  require_fails, call_fails,
}
use go_ddd_core.Ports.Idempotency.{World, Store, StoreCall, StoreReply, store_step, begin}
use go_ddd_core.Ports.Idempotency.Fake.{
  FakeStore, new_fake_store, fake_store, fake_begin, fake_finish, fake_cancel, with_owned,
  lookup_live, digits,
}
use go_ddd_core.Ports.Idempotency.Checks.{
  StoreScript, test_fingerprint, begin_checked, begin_status, require_status, check_fields,
  no_response, no_lease, is_zero,
}
use go_ddd_core.Ports.Idempotency.Suite.{
  run_store_contract, first_begin_reserves_new, cross_scope_isolation, tuple_separation_safety,
  lease_token_uniqueness, in_progress_on_duplicate_begin, carries_no_lease,
}

abbrev pub fresh_world : World
fresh_world = record { heap = no_slices; now = 0 }

run_store_contract-fake_store :
    run_suite (store_step fake_store) (new_fake_store 0, fresh_world) run_store_contract ≡ true
unfolding run_suite passes run_store_contract fake_begin fake_finish fake_cancel with_owned
    lookup_live digits observe code_of as_coded error_is error_text Errorsx.new
run_store_contract-fake_store = refl

-- The suite rejects no store that keeps the contract: one whose every call replies as the reference
-- store replies, under some view of its state that starts as the reference store does, passes every
-- subtest.
pub run_store_contract-Follows :
    {S : Type 0} (store : Store S) (view : S × World → FakeStore × World) (start : S × World)
    → Follows (store_step store) (store_step fake_store) view
    → view start ≡ (new_fake_store 0, fresh_world)
    → run_suite (store_step store) start run_store_contract ≡ true
run_store_contract-Follows store view start sim fresh =
    run_suite-Follows (store_step store) (store_step fake_store) view start sim run_store_contract
    ∙ rw fresh run_store_contract-fake_store

module _ {S : Type 0} (step : (c : StoreCall) → S → S × StoreReply c) (start s : S) where
  no_response_fails :
      (res : Reservation) (k : StoreScript)
      → passes step start k s ≡ false
      → passes step start (no_response res k) s ≡ false
  no_response_fails res k h = expect_fails step start s (not (is_some res.response)) k h

  no_lease_fails :
      (res : Reservation) (k : StoreScript)
      → passes step start k s ≡ false
      → passes step start (no_lease res k) s ≡ false
  no_lease_fails res k h =
      expect_fails step start s (str_eq res.lease_token "") (expect (is_zero res.lease_ttl) k)
        (expect_fails step start s (is_zero res.lease_ttl) k h)

  check_fields_fails :
      (status : ReservationStatus) (res : Reservation) (k : StoreScript)
      → passes step start k s ≡ false
      → passes step start (check_fields status res k) s ≡ false
  check_fields_fails status_new res k h = no_response_fails res k h
  check_fields_fails status_in_progress res k h =
      no_lease_fails res (no_response res k) (no_response_fails res k h)
  check_fields_fails status_mismatch res k h =
      no_lease_fails res (no_response res k) (no_response_fails res k h)
  check_fields_fails status_completed res k h = no_lease_fails res k h
  check_fields_fails status_unknown res k h = expect_fails step start s false k h

-- A Begin that is checked fails if what follows it fails.
begin_checked_fails :
    {S : Type 0} (step : (c : StoreCall) → S → S × StoreReply c) (start s : S)
    (scope key fingerprint : String) (k : Reservation → StoreScript)
    → (let (t, (res, e)) = step (begin live scope key fingerprint) s in
        passes step start (k res) t ≡ false)
    → passes step start (begin_checked scope key fingerprint k) s ≡ false
begin_checked_fails step start s scope key fingerprint k h =
    let (t, (res, e)) = step (begin live scope key fingerprint) s in
    call_fails step start s (begin live scope key fingerprint) _ (
      require_fails step start t (succeeded e) _ (
        expect_fails step start t (str_eq res.scope scope) _ (
          expect_fails step start t (str_eq res.key key) _
            (check_fields_fails step start t res.status res (k res) h))))

new_fails :
    {S : Type 0} (step : (c : StoreCall) → S → S × StoreReply c) (start s : S) (res : Reservation)
    (k : Reservation → StoreScript)
    → res.status ≡ status_new
    → passes step start (require_status res status_in_progress (k res)) s ≡ false
unfolding passes
new_fails step start s res k h = ground arith

twice_fails :
    {S : Type 0} (store : Store S) (start : S × World)
    → (store_step store
        (begin live "tenant:op" "k" test_fingerprint)
        (store_step store (begin live "tenant:op" "k" test_fingerprint) start).0).1.0.status
      ≡ status_new
    → passes (store_step store) start in_progress_on_duplicate_begin start ≡ false
unfolding in_progress_on_duplicate_begin
twice_fails store start h =
    let step = store_step store in
    begin_checked_fails step start start "tenant:op" "k" test_fingerprint
      (λ _.
        begin_status "tenant:op" "k" test_fingerprint status_in_progress
          (λ res. carries_no_lease res))
      (begin_checked_fails step start (step (begin live "tenant:op" "k" test_fingerprint) start).0
        "tenant:op" "k" test_fingerprint
        (λ res. require_status res status_in_progress (carries_no_lease res))
        (new_fails step start
          (step (begin live "tenant:op" "k" test_fingerprint)
            (step (begin live "tenant:op" "k" test_fingerprint) start).0).0
          (step (begin live "tenant:op" "k" test_fingerprint)
            (step (begin live "tenant:op" "k" test_fingerprint) start).0).1.0
          (λ res. carries_no_lease res) h))

-- The suite rejects every store that gives one key to two callers, whatever else it does: one whose
-- second Begin of a key is new as well.
run_store_contract_claimed_twice :
    {S : Type 0} (store : Store S) (start : S × World)
    → (store_step store
        (begin live "tenant:op" "k" test_fingerprint)
        (store_step store (begin live "tenant:op" "k" test_fingerprint) start).0).1.0.status
      ≡ status_new
    → run_suite (store_step store) start run_store_contract ≡ false
unfolding run_store_contract
run_store_contract_claimed_twice store start h =
    run_suite_failing (store_step store) start
      (first_begin_reserves_new ∷ cross_scope_isolation ∷ tuple_separation_safety
        ∷ lease_token_uniqueness ∷ [])
      _ in_progress_on_duplicate_begin (twice_fails store start h)
