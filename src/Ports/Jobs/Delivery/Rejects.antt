-- ===== src/Ports/Jobs/Delivery/Rejects.antt =====
-- What the suite of ports/jobs/jobstest/delivery.go rejects.
use go_ddd_core.Prelude.{suc, zero, ◌≡◌, refl, ◌&&◌, ◌||◌, not, Bool, true, false, All, arith}
use go_ddd_core.Prelude.Int.{ℤ, pos, negsuc, leb_ℤ}
use go_ddd_core.Ports.Suite.{require, passes}
use go_ddd_core.Ports.Jobs.Delivery.{DeliveryBackend, World, delivery_step}
use go_ddd_core.Ports.Jobs.Delivery.Suite.{
  DeliveryBounds, DeliveryScript, positive, validate, run_delivery_contract,
  failed_attempt_redelivered, not_before_process_at, past_process_at_eligible,
  run_returns_nil_on_cancel, payload_mutation_isolated, id_stable_across_redeliveries,
  handler_ctx_cancelled_on_shutdown, exact_type_dispatch_no_prefix,
  duplicate_register_keeps_original, new_worker_delivers_after_stop, concurrent_enqueue_smoke,
}

-- Whether every declared bound is positive.
abbrev are_positive : DeliveryBounds → Bool
are_positive b =
    positive b.shutdown_within
    && (positive b.deliver_within && (positive b.redeliver_within && positive b.process_at_delay))

positive-not : (d : ℤ) → positive d ≡ not (leb_ℤ d (pos 0))
positive-not (pos zero) = refl
positive-not (pos (suc n)) = ground arith
positive-not (negsuc n) = ground arith

no_bound_missed :
    (a b c d : Bool)
    → (a || (b || (c || d))) ≡ true
    → (not a && (not b && (not c && not d))) ≡ false
no_bound_missed a b c d h = ground arith

are_positive-false :
    (b : DeliveryBounds)
    → (leb_ℤ b.shutdown_within (pos 0)
        || (leb_ℤ b.deliver_within (pos 0)
            || (leb_ℤ b.redeliver_within (pos 0) || leb_ℤ b.process_at_delay (pos 0))))
      ≡ true
    → are_positive b ≡ false
are_positive-false b h =
    rw
      (
        positive-not b.shutdown_within,
        positive-not b.deliver_within,
        positive-not b.redeliver_within,
        positive-not b.process_at_delay,
      )
      (no_bound_missed (leb_ℤ b.shutdown_within (pos 0)) (leb_ℤ b.deliver_within (pos 0))
        (leb_ℤ b.redeliver_within (pos 0)) (leb_ℤ b.process_at_delay (pos 0)) h)

module _ {S : Type 0} (backend : DeliveryBackend S) (start w : World S) where
  check_fails :
      (x y : Bool) (k : DeliveryScript)
      → (y ≡ false → passes (delivery_step backend) start k w ≡ false)
      → (x && y) ≡ false
      → passes (delivery_step backend) start (require x k) w ≡ false
  unfolding passes
  check_fails true y k h e = h e
  check_fails false y k h e = refl

  validate_fails :
      (b : DeliveryBounds) (k : DeliveryScript)
      → are_positive b ≡ false
      → passes (delivery_step backend) start (validate b k) w ≡ false
  unfolding passes
  validate_fails b k = check_fails (positive b.shutdown_within) _ _ (
      check_fails (positive b.deliver_within) _ _
        (check_fails (positive b.redeliver_within) _ _ (last (positive b.process_at_delay))))
    where
      last : (x : Bool) → x ≡ false → passes (delivery_step backend) start (require x k) w ≡ false
      last true e = cc
      last false e = refl

-- Every subtest fails, on every implementation, if one of the declared bounds is zero or negative.
pub non_positive_bounds_rejected :
    {S : Type 0} (backend : DeliveryBackend S) (start : World S) (b : DeliveryBounds)
    → (leb_ℤ b.shutdown_within (pos 0)
        || (leb_ℤ b.deliver_within (pos 0)
            || (leb_ℤ b.redeliver_within (pos 0) || leb_ℤ b.process_at_delay (pos 0))))
      ≡ true
    → All (λ k. passes (delivery_step backend) start k start ≡ false) (run_delivery_contract b)
unfolding run_delivery_contract failed_attempt_redelivered not_before_process_at
    past_process_at_eligible run_returns_nil_on_cancel payload_mutation_isolated
    id_stable_across_redeliveries handler_ctx_cancelled_on_shutdown exact_type_dispatch_no_prefix
    duplicate_register_keeps_original new_worker_delivers_after_stop concurrent_enqueue_smoke
non_positive_bounds_rejected backend start b h =
    let fails =
      λ (k : DeliveryScript). validate_fails backend start start b k (are_positive-false b h) in
    (
      fails _,
      (
        fails _,
        (
          fails _,
          (
            fails _,
            (fails _, (fails _, (fails _, (fails _, (fails _, (fails _, (fails _, tt))))))),
          ),
        ),
      ),
    )
