-- ===== src/Ports/Jobs/Laws.antt =====
-- The suite of ports/jobs/jobstest/jobstest.go against the contract of ports/jobs/jobs.go.
use go_ddd_core.Prelude.{ℕ, String, Bool, true, false, ◌≡◌, refl, ◌∙◌, [], ◌∷◌, str_eq}
use go_ddd_core.Prelude.Dict.{lookup, insert}
use go_ddd_core.Errors.{as_coded, error_is}
use go_ddd_core.Errorsx
use go_ddd_core.Errorsx.{code_of}
use go_ddd_core.Ports.Contexts.{observe}
use go_ddd_core.Ports.Suite.{
  passes, run_suite, run_suite-Follows, run_suite_cons, run_suite_append, Follows,
}
use go_ddd_core.Ports.Jobs.{
  Backend, jobs_step, JobStore, new_job_store, contract_enqueue, contract_register, jobs_contract,
}
use go_ddd_core.Ports.Jobs.Suite.{
  run_contract, malformed_enqueue, malformed_enqueue_precedence,
  malformed_enqueue_precedence_deadline, enqueue_returns_non_empty_id, enqueue_nil_payload_accepted,
  enqueue_ctx_cancellation, enqueue_deadline_exceeded, register_validation,
  register_validation_precedence,
}

module _ (in_horizon : ℕ → Bool) (fresh : JobStore → String) (h : in_horizon 0 ≡ true)
    (f : str_eq (fresh new_job_store) "" ≡ false) where
  non_empty_id_passes :
      passes
        (jobs_step (jobs_contract in_horizon fresh))
        new_job_store
        enqueue_returns_non_empty_id
        new_job_store
      ≡ true
  unfolding passes contract_enqueue enqueue_returns_non_empty_id
  non_empty_id_passes = rw (h, f) refl

  nil_payload_passes :
      passes
        (jobs_step (jobs_contract in_horizon fresh))
        new_job_store
        enqueue_nil_payload_accepted
        new_job_store
      ≡ true
  unfolding passes contract_enqueue enqueue_nil_payload_accepted
  nil_payload_passes = rw (h, f) refl

  cancellation_passes :
      passes
        (jobs_step (jobs_contract in_horizon fresh))
        new_job_store
        enqueue_ctx_cancellation
        new_job_store
      ≡ true
  unfolding passes contract_enqueue enqueue_ctx_cancellation observe error_is
  cancellation_passes = rw h refl

  deadline_passes :
      passes
        (jobs_step (jobs_contract in_horizon fresh))
        new_job_store
        enqueue_deadline_exceeded
        new_job_store
      ≡ true
  unfolding passes contract_enqueue enqueue_deadline_exceeded observe error_is
  deadline_passes = rw h refl

malformed_pass :
    (in_horizon : ℕ → Bool) (fresh : JobStore → String)
    → run_suite (jobs_step (jobs_contract in_horizon fresh)) new_job_store (
        malformed_enqueue ∷ malformed_enqueue_precedence ∷ malformed_enqueue_precedence_deadline
        ∷ [])
      ≡ true
unfolding run_suite passes contract_enqueue malformed_enqueue malformed_enqueue_precedence
    malformed_enqueue_precedence_deadline observe code_of as_coded error_is Errorsx.new
malformed_pass in_horizon fresh = refl

register_pass :
    (in_horizon : ℕ → Bool) (fresh : JobStore → String)
    → run_suite
        (jobs_step (jobs_contract in_horizon fresh))
        new_job_store
        (register_validation ∷ register_validation_precedence ∷ [])
      ≡ true
unfolding run_suite passes contract_register register_validation register_validation_precedence
    observe code_of as_coded error_is Errorsx.new lookup insert
register_pass in_horizon fresh = refl

run_contract-jobs_contract :
    (in_horizon : ℕ → Bool) (fresh : JobStore → String)
    → in_horizon 0 ≡ true
    → str_eq (fresh new_job_store) "" ≡ false
    → run_suite (jobs_step (jobs_contract in_horizon fresh)) new_job_store run_contract ≡ true
unfolding run_contract
run_contract-jobs_contract in_horizon fresh h f =
    let step = jobs_step (jobs_contract in_horizon fresh) in
    run_suite_append step new_job_store _ _ (malformed_pass in_horizon fresh) (
      run_suite_cons step new_job_store _ _ (non_empty_id_passes in_horizon fresh h f) (
        run_suite_cons step new_job_store _ _ (nil_payload_passes in_horizon fresh h f) (
          run_suite_cons step new_job_store _ _ (cancellation_passes in_horizon fresh h f) (
            run_suite_cons step new_job_store _ _ (deadline_passes in_horizon fresh h f)
              (register_pass in_horizon fresh)))))

-- The suite rejects no backend that keeps the contract: one that replies as the contract says under some
-- view of its state, starts without jobs and handlers, can run a job at once and never gives a first job
-- the empty identifier, passes every subtest.
jobs_contract-passes :
    {S : Type 0} (backend : Backend S) (view : S → JobStore) (start : S) (in_horizon : ℕ → Bool)
    (fresh : JobStore → String)
    → in_horizon 0 ≡ true
    → str_eq (fresh new_job_store) "" ≡ false
    → Follows (jobs_step backend) (jobs_step (jobs_contract in_horizon fresh)) view
    → view start ≡ new_job_store
    → run_suite (jobs_step backend) start run_contract ≡ true
jobs_contract-passes backend view start in_horizon fresh h f sim empty =
    run_suite-Follows (jobs_step backend) (jobs_step (jobs_contract in_horizon fresh)) view start
      sim run_contract
    ∙ rw empty (run_contract-jobs_contract in_horizon fresh h f)
