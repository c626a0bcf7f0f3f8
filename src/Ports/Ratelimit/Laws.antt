-- ===== src/Ports/Ratelimit/Laws.antt =====
-- The suite of ports/ratelimit/ratelimittest/ratelimittest.go against the contract of
-- ports/ratelimit/ratelimit.go.
use go_ddd_core.Prelude.{String, true, false, ◌≡◌, refl, ◌∙◌, List, [], ◌∷◌, arith}
use go_ddd_core.Errors.{as_coded, error_is}
use go_ddd_core.Errorsx
use go_ddd_core.Errorsx.{code_of}
use go_ddd_core.Ports.{LimitResult}
use go_ddd_core.Ports.Contexts.{live, observe}
use go_ddd_core.Ports.Suite.{
  passes, run_suite, run_suite-Follows, run_suite_failing, run_suite_append, run_suite_cons,
  run_suite_nil, Follows,
}
use go_ddd_core.Ports.Ratelimit.{Limiter, limiter_step, limiter_contract, IsAllowed, IsDenied}
use go_ddd_core.Ports.Ratelimit.Suite.{
  run_contract, key_a, key_b, empty_key_invalid_argument, empty_key_precedes_cancelled_ctx,
  empty_key_precedes_expired_deadline, pre_cancelled_ctx, pre_expired_ctx,
  first_allowed_second_denied, retry_after_invariant, key_isolation, metadata_shape,
}

module _ (allowed denied : String → LimitResult) (a : (k : String) → IsAllowed (allowed k))
    (d : (k : String) → IsDenied (denied k)) where
  first_passes :
      passes (limiter_step (limiter_contract allowed denied)) [] first_allowed_second_denied []
      ≡ true
  unfolding passes limiter_contract first_allowed_second_denied
  first_passes = rw ((a key_a).0, (d key_a).0) refl

  retry_passes :
      passes (limiter_step (limiter_contract allowed denied)) [] retry_after_invariant [] ≡ true
  unfolding passes limiter_contract retry_after_invariant
  retry_passes = rw ((a key_a).1, (d key_a).1) refl

  isolation_passes :
      passes (limiter_step (limiter_contract allowed denied)) [] key_isolation [] ≡ true
  unfolding passes limiter_contract key_isolation
  isolation_passes = rw ((a key_b).0) refl

  metadata_passes :
      passes (limiter_step (limiter_contract allowed denied)) [] metadata_shape [] ≡ true
  unfolding passes limiter_contract metadata_shape
  metadata_passes = rw ((a key_a).2, (d key_a).2) refl

errors_pass :
    (allowed denied : String → LimitResult)
    → run_suite (limiter_step (limiter_contract allowed denied)) [] (
        empty_key_invalid_argument ∷ empty_key_precedes_cancelled_ctx
        ∷ empty_key_precedes_expired_deadline ∷ pre_cancelled_ctx ∷ pre_expired_ctx ∷ [])
      ≡ true
unfolding run_suite passes limiter_contract empty_key_invalid_argument
    empty_key_precedes_cancelled_ctx empty_key_precedes_expired_deadline pre_cancelled_ctx
    pre_expired_ctx observe code_of as_coded error_is Errorsx.new
errors_pass allowed denied = refl

run_contract-limiter_contract :
    (allowed denied : String → LimitResult)
    → ((k : String) → IsAllowed (allowed k))
    → ((k : String) → IsDenied (denied k))
    → run_suite (limiter_step (limiter_contract allowed denied)) [] run_contract ≡ true
unfolding run_contract
run_contract-limiter_contract allowed denied a d =
    let step = limiter_step (limiter_contract allowed denied) in
    run_suite_append step [] _ _ (errors_pass allowed denied) (
      run_suite_cons step [] _ _ (first_passes allowed denied a d) (
        run_suite_cons step [] _ _ (retry_passes allowed denied a d) (
          run_suite_cons step [] _ _ (isolation_passes allowed denied a d) (
            run_suite_cons step [] _ _ (metadata_passes allowed denied a d)
              (run_suite_nil step [])))))

-- The suite rejects no limiter of its profile: one that replies as the contract says under some view of
-- its state, starts with no key spent, and whose results have the waits and the counts that the
-- documentation of Result asks of an allowed and of a denied one, passes every subtest.
limiter_contract-passes :
    {S : Type 0} (limiter : Limiter S) (view : S → List String) (start : S)
    (allowed denied : String → LimitResult)
    → ((k : String) → IsAllowed (allowed k))
    → ((k : String) → IsDenied (denied k))
    → Follows (limiter_step limiter) (limiter_step (limiter_contract allowed denied)) view
    → view start ≡ []
    → run_suite (limiter_step limiter) start run_contract ≡ true
limiter_contract-passes limiter view start allowed denied a d sim empty =
    run_suite-Follows (limiter_step limiter) (limiter_step (limiter_contract allowed denied)) view
      start sim run_contract
    ∙ rw empty (run_contract-limiter_contract allowed denied a d)

generous_fails :
    {S : Type 0} (limiter : Limiter S) (start : S)
    → (limiter.allow live key_a (limiter.allow live key_a start).0).1.0.allowed ≡ true
    → passes (limiter_step limiter) start first_allowed_second_denied start ≡ false
unfolding passes first_allowed_second_denied
generous_fails limiter start h = ground arith

-- The suite rejects every limiter that allows a second call of one key, whatever else it does.
run_contract_generous :
    {S : Type 0} (limiter : Limiter S) (start : S)
    → (limiter.allow live key_a (limiter.allow live key_a start).0).1.0.allowed ≡ true
    → run_suite (limiter_step limiter) start run_contract ≡ false
unfolding run_contract
run_contract_generous limiter start h =
    run_suite_failing (limiter_step limiter) start
      (empty_key_invalid_argument ∷ empty_key_precedes_cancelled_ctx
        ∷ empty_key_precedes_expired_deadline ∷ pre_cancelled_ctx ∷ pre_expired_ctx ∷ [])
      _ first_allowed_second_denied (generous_fails limiter start h)
