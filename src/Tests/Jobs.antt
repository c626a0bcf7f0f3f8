-- ===== src/Tests/Jobs.antt =====
-- The theorems on the delivery suite and on the reference store of ports/jobs/jobstest at concrete inputs.
use Prim.Native.String.{len, ◌++◌ as ◌+++◌}
use text.Mathlib.TextPositions.{len-append}
use go_ddd_core.Prelude.{
  ℕ, zero, suc, ◌≡◌, ◌≢◌, refl, sym, ap, ◌∙◌, String, Bool, true, false, none, List, [], ◌∷◌, All,
  str_eq, arith,
}
use go_ddd_core.Prelude.Int.{pos, negsuc}
use go_ddd_core.Ports.Suite.{passes}
use go_ddd_core.Ports.Jobs.{Job}
use go_ddd_core.Ports.Jobs.Delivery.{DeliveryBackend, Task, new_world, delivery_step}
use go_ddd_core.Ports.Jobs.Delivery.Suite.{DeliveryBounds, run_delivery_contract}
use go_ddd_core.Ports.Jobs.Delivery.Rejects.{non_positive_bounds_rejected}
use go_ddd_core.Ports.Storage.Objects.{str_eq-differs}
use go_ddd_core.Ports.Jobs.Reference.{RefJob, new_ref_store, new_ref_job, store_enqueue, claim}
use go_ddd_core.Ports.Jobs.Reference.Exclusive.{
  Step, enqueues, claims, completes, retries, take_step, take_steps,
}
use go_ddd_core.Ports.Jobs.Reference.Histories.{claim_exclusive}

abbrev no_delay : DeliveryBounds
no_delay = record {
  shutdown_within = pos 1;
  deliver_within = pos 1;
  redeliver_within = pos 0;
  process_at_delay = negsuc 4;
}

-- A backend that accepts each job and never calls a handler; its state is the number of the jobs.
abbrev silent : DeliveryBackend ℕ
silent = record {
  enqueue = λ ctx job n. (suc n, (record { id = "job" }, none));
  new_worker = λ n. (n, 0);
  register = λ w t h n. (n, none);
  run = λ w n. n;
  cancel = λ w n. n;
  advance = λ now n. (n, []);
  wrote = λ d bytes n. n;
  finish = λ d e n. n;
}

non_positive_bounds_rejected_example :
    All
      (λ k. passes (delivery_step silent) (new_world 0 5) k (new_world 0 5) ≡ false)
      (run_delivery_contract no_delay)
non_positive_bounds_rejected_example =
    non_positive_bounds_rejected silent (new_world 0 5) no_delay refl

abbrev handles_mail : String → Bool
handles_mail t = str_eq t "mail"

abbrev mail : ℕ → Job
mail at = record { job_type = "mail"; payload = 1 ∷ []; process_at = at }

-- One job that is due, one that is not, one without a handler, one that is done and one that is claimed.
abbrev stored : List RefJob
stored =
    new_ref_job "j1" (mail 9)
    ∷ new_ref_job "j2" (mail 5)
    ∷ new_ref_job "j3" (record { job_type = "x"; payload = []; process_at = 0 })
    ∷ record (new_ref_job "j4" (mail 0)) { done = true; claimed = true }
    ∷ record (new_ref_job "j5" (mail 0)) { claimed = true }
    ∷ new_ref_job "j6" (mail 0)
    ∷ []

-- Identifiers by their length.
unfoldable unary : ℕ → String
unary zero = ""
unary (suc n) = "j" +++ unary n

len-unary : (n : ℕ) → len (unary n) ≡ n
unfolding unary
len-unary zero = refl
len-unary (suc n) =
    let one : len "j" ≡ 1 = refl in omega (arith, len-append "j" (unary n), len-unary n, one)

unary_inj : (j k : ℕ) → unary j ≡ unary k → j ≡ k
unary_inj j k e = sym (len-unary j) ∙ ap len e ∙ len-unary k

abbrev first_steps : List Step
first_steps = enqueues (mail 9) ∷ enqueues (mail 5) ∷ []

-- The job is done, another one is claimed, put back and claimed again, and a third one comes.
abbrev later_steps : List Step
later_steps =
    claims 9 handles_mail
    ∷ retries "j" 2 9
    ∷ completes "jj"
    ∷ enqueues (mail 0)
    ∷ claims 11 handles_mail
    ∷ claims 11 handles_mail
    ∷ []

abbrev second : Task
second = record { id = "jj"; task_type = "mail"; payload = 1 ∷ [] }

claim_exclusive_example :
    All
      (λ u. u.id ≢ "jj")
      (take_steps unary later_steps
        (take_step unary
          (claims 7 handles_mail)
          (take_steps unary first_steps new_ref_store).0).0).1
unfolding unary take_steps store_enqueue claim
claim_exclusive_example =
    claim_exclusive unary first_steps later_steps 7 handles_mail second unary_inj refl
      (tt, (str_eq-differs "j" "jj" refl, (tt, (tt, (tt, (tt, tt))))))
