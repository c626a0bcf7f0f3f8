-- ===== src/Ports/Idempotency/Reclaim.antt =====
-- RunReclaimContract of ports/idempotency/idempotencytest/idempotencytest.go: the loop that polls a store
-- until a reservation has been reclaimed.
use go_ddd_core.Prelude.{
  ℕ, zero, suc, ◌+◌, ◌-◌, ◌/◌, Bool, true, false, not, List, [], ◌∷◌, leb, str_eq,
}
use go_ddd_core.Prelude.Int.{ℤ, pos, leb_ℤ, pos_part}
use go_ddd_core.Ports.{Reservation, ReservationStatus, status_new, status_in_progress}
use go_ddd_core.Ports.Contexts.{live}
use go_ddd_core.Ports.Suite.{done, fatal, call, require}
use go_ddd_core.Ports.Idempotency.{cancel, now, sleep}
use go_ddd_core.Ports.Idempotency.Checks.{
  StoreScript, test_fingerprint, begin_checked, require_status, require_conflict, finish_bytes,
  must_finish,
}

abbrev pub min : ℕ → ℕ → ℕ
min a b = elim (leb a b) [ true ↦ a | false ↦ b ]

abbrev pub max : ℕ → ℕ → ℕ
max a b = elim (leb a b) [ true ↦ b | false ↦ a ]

-- `max(opts.ReclaimWithin/10, 2*time.Millisecond)`
abbrev pub poll_of : ℕ → ℕ
poll_of within = max (within / 10) 2000000

-- The end of an iteration: `late` is `remaining <= 0`.
abbrev pub sleep_unless : Bool → ℕ → StoreScript → StoreScript
sleep_unless true d again = fatal
sleep_unless false d again = call (sleep d) λ _. again

-- What an iteration does with its reservation, before `again`.
abbrev pub poll_result :
    ReservationStatus
    → Reservation
    → ℕ
    → ℕ
    → StoreScript
    → (Reservation → StoreScript)
    → StoreScript
poll_result status_new r deadline poll again k = k r
poll_result status_in_progress r deadline poll again k =
    call now λ t. sleep_unless (leb deadline t) (min (deadline - t) poll) again
poll_result _ r deadline poll again k = fatal

-- The loop, of `n` iterations at most.
unfoldable pub reclaim_loop : ℕ → ℕ → ℕ → (Reservation → StoreScript) → StoreScript
reclaim_loop zero deadline poll k = fatal
reclaim_loop (suc n) deadline poll k =
    begin_checked "tenant:op" "k" test_fingerprint
      λ r. poll_result r.status r deadline poll (reclaim_loop n deadline poll k) k

-- What follows the loop: the reservation that was reclaimed owns nothing, the new one does.
abbrev pub after_reclaim : Reservation → Reservation → StoreScript
after_reclaim res_1 res_2 = require (not (str_eq res_2.lease_token res_1.lease_token)) (
    finish_bytes res_1 (120 ∷ []) λ e.
      require_conflict e
        (call (cancel live res_1) λ f. require_conflict f (must_finish res_2 (121 ∷ []) done)))

unfoldable pub unfinished_reservation_eventually_reclaimable : ℕ → ℕ → StoreScript
unfinished_reservation_eventually_reclaimable fuel within = call now λ start.
    begin_checked "tenant:op" "k" test_fingerprint λ res_1.
      require_status res_1 status_new
        (reclaim_loop fuel (start + within) (poll_of within) (λ res_2. after_reclaim res_1 res_2))

-- `invalid` is `opts.ReclaimWithin <= 0`.
abbrev pub reclaim_suite : Bool → ℕ → ℕ → List StoreScript
reclaim_suite true fuel within = fatal ∷ []
reclaim_suite false fuel within = unfinished_reservation_eventually_reclaimable fuel within ∷ []

-- `RunReclaimContract`
unfoldable pub run_reclaim_contract : ℕ → ℤ → List StoreScript
run_reclaim_contract fuel within = reclaim_suite (leb_ℤ within (pos 0)) fuel (pos_part within)
