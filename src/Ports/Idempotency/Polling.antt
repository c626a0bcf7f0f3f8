-- ===== src/Ports/Idempotency/Polling.antt =====
-- The loop of RunReclaimContract in ports/idempotency/idempotencytest/idempotencytest.go needs no more
-- than twelve Begins.
use go_ddd_core.Prelude.{
  ℕ, zero, suc, ◌+◌, ◌-◌, ◌≤◌, String, Bool, true, false, not, ◌&&◌, ◌≡◌, refl, ap, leb, str_eq,
  is_some, arith,
}
use go_ddd_core.Prelude.Int.{ℤ, pos, leb_ℤ, pos_part}
use go_ddd_core.Ports.{
  Reservation, ReservationStatus, status_new, status_in_progress, status_completed, status_mismatch,
  status_unknown,
}
use go_ddd_core.Ports.Contexts.{live, succeeded}
use go_ddd_core.Ports.Suite.{passes, run_suite, require_same, expect_same, call_same}
use go_ddd_core.Ports.Idempotency.{World, Store, store_step, begin, now}
use go_ddd_core.Ports.Idempotency.Checks.{
  StoreScript, test_fingerprint, begin_checked, check_fields, no_response, no_lease, require_status,
  is_zero, status_eq,
}
use go_ddd_core.Ports.Idempotency.Reclaim.{
  min, poll_of, sleep_unless, poll_result, reclaim_loop, after_reclaim,
  unfinished_reservation_eventually_reclaimable, reclaim_suite, run_reclaim_contract,
}

-- The time of `n` polls.
abbrev pub total : ℕ → ℕ → ℕ
total zero poll = 0
total (suc n) poll = poll + total n poll

eleven_polls : (within : ℕ) → within ≤ total 11 (poll_of within)
eleven_polls within = ground arith

passed : {before t deadline : ℕ} → before ≤ t → deadline ≤ before + 0 → leb deadline t ≡ false → ⊥
passed b h late = ground arith

sleep_reaches :
    (n before t deadline poll : ℕ)
    → before ≤ t
    → deadline ≤ before + total (suc n) poll
    → deadline ≤ (t + min (deadline - t) poll) + total n poll
sleep_reaches n before t deadline poll b h = ground arith

module _ {S : Type 0} (store : Store S) (start s : S × World) where
  no_response_same :
      (res : Reservation) (j k : StoreScript)
      → passes (store_step store) start j s ≡ passes (store_step store) start k s
      → passes (store_step store) start (no_response res j) s
        ≡ passes (store_step store) start (no_response res k) s
  no_response_same res j k h =
      expect_same (store_step store) start s (not (is_some res.response)) j k h

  no_lease_same :
      (res : Reservation) (j k : StoreScript)
      → passes (store_step store) start j s ≡ passes (store_step store) start k s
      → passes (store_step store) start (no_lease res j) s
        ≡ passes (store_step store) start (no_lease res k) s
  no_lease_same res j k h =
      expect_same (store_step store) start s (str_eq res.lease_token "") _ _
        (expect_same (store_step store) start s (is_zero res.lease_ttl) j k h)

  check_fields_same :
      (status : ReservationStatus) (res : Reservation) (j k : StoreScript)
      → passes (store_step store) start j s ≡ passes (store_step store) start k s
      → passes (store_step store) start (check_fields status res j) s
        ≡ passes (store_step store) start (check_fields status res k) s
  check_fields_same status_new res j k h = no_response_same res j k h
  check_fields_same status_in_progress res j k h =
      no_lease_same res (no_response res j) (no_response res k) (no_response_same res j k h)
  check_fields_same status_mismatch res j k h =
      no_lease_same res (no_response res j) (no_response res k) (no_response_same res j k h)
  check_fields_same status_completed res j k h = no_lease_same res j k h
  check_fields_same status_unknown res j k h = expect_same (store_step store) start s false j k h

module _ {S : Type 0} (store : Store S) (start : S × World) where
  begin_checked_same :
      (s : S × World) (f g : Reservation → StoreScript)
      → (let (t, (res, e)) = store_step store (begin live "tenant:op" "k" test_fingerprint) s in
          passes (store_step store) start (f res) t ≡ passes (store_step store) start (g res) t)
      → passes (store_step store) start (begin_checked "tenant:op" "k" test_fingerprint f) s
        ≡ passes (store_step store) start (begin_checked "tenant:op" "k" test_fingerprint g) s
  begin_checked_same s f g h =
      let (t, (res, e)) = store_step store (begin live "tenant:op" "k" test_fingerprint) s in
      call_same (store_step store) start s (begin live "tenant:op" "k" test_fingerprint) _ _ (
        require_same (store_step store) start t (succeeded e) _ _ (
          expect_same (store_step store) start t (str_eq res.scope "tenant:op") _ _ (
            expect_same (store_step store) start t (str_eq res.key "k") _ _
              (check_fields_same store start t res.status res (f res) (g res) h))))

  sleep_unless_same :
      (late : Bool) (d : ℕ) (i j : StoreScript) (s : S) (w : World)
      → (late ≡ false
          → passes (store_step store) start i (s, record w { now = w.now + d })
            ≡ passes (store_step store) start j (s, record w { now = w.now + d }))
      → passes (store_step store) start (sleep_unless late d i) (s, w)
        ≡ passes (store_step store) start (sleep_unless late d j) (s, w)
  unfolding passes
  sleep_unless_same true d i j s w h = refl
  sleep_unless_same false d i j s w h = h refl

  -- An iteration agrees with another if what follows agrees where the deadline has not passed.
  poll_result_same :
      (status : ReservationStatus) (r : Reservation) (deadline poll : ℕ) (i j : StoreScript)
      (k : Reservation → StoreScript) (s : S) (w : World)
      → (leb deadline w.now ≡ false
          → passes
              (store_step store)
              start
              i
              (s, record w { now = w.now + min (deadline - w.now) poll })
            ≡ passes
                (store_step store)
                start
                j
                (s, record w { now = w.now + min (deadline - w.now) poll }))
      → passes (store_step store) start (poll_result status r deadline poll i k) (s, w)
        ≡ passes (store_step store) start (poll_result status r deadline poll j k) (s, w)
  unfolding passes
  poll_result_same status_new r deadline poll i j k s w h = refl
  poll_result_same status_in_progress r deadline poll i j k s w h =
      sleep_unless_same (leb deadline w.now) (min (deadline - w.now) poll) i j s w h
  poll_result_same status_completed r deadline poll i j k s w h = refl
  poll_result_same status_mismatch r deadline poll i j k s w h = refl
  poll_result_same status_unknown r deadline poll i j k s w h = refl

-- The clock does not go back over a Begin.
abbrev pub KeepsTime : {S : Type 0} → Store S → Type 0
KeepsTime {S} store =
    (scope key fingerprint : String) (w : S × World)
    → w.1.now ≤ (store.begin live scope key fingerprint w).0.1.now

module _ {S : Type 0} (store : Store S) (start : S × World) (forward : KeepsTime store) where
  -- Where `n` polls reach the deadline, iterations more than `suc n` change nothing.
  reclaim_loop_enough :
      (n f deadline poll : ℕ) (k : Reservation → StoreScript) (w : S × World)
      → n ≤ f
      → deadline ≤ w.1.now + total n poll
      → passes (store_step store) start (reclaim_loop (suc f) deadline poll k) w
        ≡ passes (store_step store) start (reclaim_loop (suc n) deadline poll k) w
  unfolding reclaim_loop
  reclaim_loop_enough zero f deadline poll k w l h =
      let (t, (r, e)) = store.begin live "tenant:op" "k" test_fingerprint w in
      begin_checked_same store start w
        (λ x. poll_result x.status x deadline poll (reclaim_loop f deadline poll k) k)
        (λ x. poll_result x.status x deadline poll (reclaim_loop zero deadline poll k) k)
        (poll_result_same store start r.status r deadline poll (reclaim_loop f deadline poll k)
          (reclaim_loop zero deadline poll k) k t.0 t.1
          (λ late. absurd (passed (forward "tenant:op" "k" test_fingerprint w) h late)))
  reclaim_loop_enough (suc n) zero deadline poll k w l h = absurd (omega (arith, l))
  reclaim_loop_enough (suc n) (suc f) deadline poll k w l h =
      let (t, (r, e)) = store.begin live "tenant:op" "k" test_fingerprint w in
      begin_checked_same store start w
        (λ x. poll_result x.status x deadline poll (reclaim_loop (suc f) deadline poll k) k)
        (λ x. poll_result x.status x deadline poll (reclaim_loop (suc n) deadline poll k) k)
        (poll_result_same store start r.status r deadline poll
          (reclaim_loop (suc f) deadline poll k) (reclaim_loop (suc n) deadline poll k) k t.0 t.1
          (λ late. reclaim_loop_enough n f deadline poll k _ (omega (arith, l)) (
            sleep_reaches n w.1.now t.1.now deadline poll
              (forward "tenant:op" "k" test_fingerprint w) h)))

  subtest_enough :
      (f within : ℕ)
      → 11 ≤ f
      → passes
          (store_step store)
          start
          (unfinished_reservation_eventually_reclaimable (suc f) within)
          start
        ≡ passes
            (store_step store)
            start
            (unfinished_reservation_eventually_reclaimable 12 within)
            start
  unfolding unfinished_reservation_eventually_reclaimable
  subtest_enough f within l =
      let (t, (r, e)) = store.begin live "tenant:op" "k" test_fingerprint start in
      let deadline = start.1.now + within in
      let loop : ℕ → Reservation → StoreScript =
        λ fuel x. reclaim_loop fuel deadline (poll_of within) (λ y. after_reclaim x y) in
      call_same (store_step store) start start now _ _ (
        begin_checked_same store start start (λ x. require_status x status_new (loop (suc f) x))
          (λ x. require_status x status_new (loop 12 x))
          (require_same (store_step store) start t (status_eq r.status status_new) (loop (suc f) r)
            (loop 12 r)
            (reclaim_loop_enough 11 f deadline (poll_of within) (λ y. after_reclaim r y) t l
              (omega
                (arith, eleven_polls within, forward "tenant:op" "k" test_fingerprint start)))))

  reclaim_suite_enough :
      (invalid : Bool) (f within : ℕ)
      → 11 ≤ f
      → run_suite (store_step store) start (reclaim_suite invalid (suc f) within)
        ≡ run_suite (store_step store) start (reclaim_suite invalid 12 within)
  unfolding run_suite
  reclaim_suite_enough true f within l = refl
  reclaim_suite_enough false f within l = ap (λ b. b && true) (subtest_enough f within l)

  -- The polling of RunReclaimContract ends: whatever the store answers and however long its Begins
  -- take, as long as the clock does not go back over one, twelve iterations of the loop decide the suite
  -- just as any greater number does, for every ReclaimWithin.
  pub run_reclaim_contract_enough :
      (fuel : ℕ) (within : ℤ)
      → 12 ≤ fuel
      → run_suite (store_step store) start (run_reclaim_contract fuel within)
        ≡ run_suite (store_step store) start (run_reclaim_contract 12 within)
  unfolding run_reclaim_contract
  run_reclaim_contract_enough zero within l = absurd (omega (arith, l))
  run_reclaim_contract_enough (suc f) within l =
      reclaim_suite_enough (leb_ℤ within (pos 0)) f (pos_part within) (omega (arith, l))
