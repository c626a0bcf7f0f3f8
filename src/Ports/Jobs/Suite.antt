-- ===== src/Ports/Jobs/Suite.antt =====
-- ports/jobs/jobstest/jobstest.go, subtest by subtest.
use go_ddd_core.Prelude.{ℕ, Option, none, some, String, Bool, not, List, [], ◌∷◌, str_eq}
use go_ddd_core.Errorsx.{code_invalid_argument, code_already_exists}
use go_ddd_core.Ports.Contexts.{
  live, cancelled, expired, Failure, failure_code, is_canceled, is_late, succeeded,
}
use go_ddd_core.Ports.Suite.{Script, done, call, require}
use go_ddd_core.Ports.Jobs.{Job, JobInfo, JobsCall, JobsReply, enqueue, register}

abbrev JobsScript : Type 0
JobsScript = Script JobsCall JobsReply

abbrev job : String → List ℕ → Job
job t bs = record { job_type = t; payload = bs; process_at = 0 }

abbrev is_invalid : Option Failure → Bool
is_invalid e = str_eq (failure_code e) code_invalid_argument

abbrev has_no_id : JobInfo → Bool
has_no_id info = str_eq info.id ""

unfoldable pub malformed_enqueue : JobsScript
malformed_enqueue =
    call (enqueue live (job "" []))
      λ (info, e). require (is_invalid e) (require (has_no_id info) done)

unfoldable pub malformed_enqueue_precedence : JobsScript
malformed_enqueue_precedence = call (enqueue cancelled (job "" [])) λ (info, e).
    require (is_invalid e) (require (not (is_canceled e)) (require (has_no_id info) done))

unfoldable pub malformed_enqueue_precedence_deadline : JobsScript
malformed_enqueue_precedence_deadline =
    call (enqueue expired (job "" [])) λ (info, e).
      require (is_invalid e) (require (not (is_late e)) (require (has_no_id info) done))

unfoldable pub enqueue_returns_non_empty_id : JobsScript
enqueue_returns_non_empty_id =
    call (enqueue live (job "jobstest:ok" (112 ∷ [])))
      λ (info, e). require (succeeded e) (require (not (has_no_id info)) done)

unfoldable pub enqueue_nil_payload_accepted : JobsScript
enqueue_nil_payload_accepted =
    call (enqueue live (job "jobstest:nil-payload" []))
      λ (info, e). require (succeeded e) (require (not (has_no_id info)) done)

unfoldable pub enqueue_ctx_cancellation : JobsScript
enqueue_ctx_cancellation =
    call (enqueue cancelled (job "jobstest:cancelled" (112 ∷ [])))
      λ (info, e). require (is_canceled e) (require (has_no_id info) done)

unfoldable pub enqueue_deadline_exceeded : JobsScript
enqueue_deadline_exceeded =
    call (enqueue expired (job "jobstest:expired" (112 ∷ [])))
      λ (info, e). require (is_late e) (require (has_no_id info) done)

unfoldable pub register_validation : JobsScript
register_validation = call (register "jobstest:reg" (some 0)) λ e. require (succeeded e) (
    call (register "" (some 0)) λ f. require (is_invalid f) (
      call (register "jobstest:nil-handler" none) λ g. require (is_invalid g) (
        call (register "jobstest:reg" (some 0))
          λ h. require (str_eq (failure_code h) code_already_exists) done)))

unfoldable pub register_validation_precedence : JobsScript
register_validation_precedence = call (register "jobstest:prec" (some 0)) λ e.
    require (succeeded e) (call (register "jobstest:prec" none) λ f. require (is_invalid f) done)

-- `RunContract`
unfoldable pub run_contract : List JobsScript
unfolding malformed_enqueue malformed_enqueue_precedence malformed_enqueue_precedence_deadline
    enqueue_returns_non_empty_id enqueue_nil_payload_accepted enqueue_ctx_cancellation
    enqueue_deadline_exceeded register_validation register_validation_precedence
run_contract =
    malformed_enqueue ∷ malformed_enqueue_precedence ∷ malformed_enqueue_precedence_deadline
    ∷ enqueue_returns_non_empty_id ∷ enqueue_nil_payload_accepted ∷ enqueue_ctx_cancellation
    ∷ enqueue_deadline_exceeded ∷ register_validation ∷ register_validation_precedence ∷ []
