-- ===== src/Ports/Jobs/Reference/Claims.antt =====
-- The polls of a reference worker (ports/jobs/jobstest/delivery_test.go) at one instant.
use go_ddd_core.Prelude.{
  ℕ, zero, suc, ◌≡◌, String, Bool, false, Option, none, some, List, [], ◌∷◌, map, keep, leb, ◌&&◌,
  if◌then◌else◌,
}
use go_ddd_core.Ports.Jobs.Delivery.{Task}
use go_ddd_core.Ports.Jobs.Reference.{RefJob, claim, eligible, taken, task_of}

-- The tasks that the next `n` polls at an instant hand to handlers, and the jobs afterwards.
abbrev pub and_task : Task → List Task × List RefJob → List Task × List RefJob
and_task t (ts, js) = (t ∷ ts, js)

-- `if !ok { continue }`, and the next poll.
abbrev after_claim :
    (List RefJob → List Task × List RefJob) → Option Task × List RefJob → List Task × List RefJob
after_claim next (none, js) = next js
after_claim next (some t, js) = and_task t (next js)

unfoldable pub polls : ℕ → ℕ → (String → Bool) → List RefJob → List Task × List RefJob
polls zero now has js = ([], js)
polls (suc n) now has js = after_claim (λ rest. polls n now has rest) (claim now has js)

-- What a job is after all the polls of an instant.
abbrev pub marked : ℕ → (String → Bool) → RefJob → RefJob
marked now has j = if eligible now has j then taken j else j

module _ (now : ℕ) (has : String → Bool) where
  abbrev waits : List RefJob → List RefJob
  waits js = keep (eligible now has) js

  -- Nothing waits, and a claim changes nothing.
  abbrev IsIdle : List RefJob → Type 0
  IsIdle js = (claim now has js ≡ (none, js)) × (waits js ≡ []) × (map (marked now has) js ≡ js)

  -- The claim takes the first job that waits, and the others wait after it as before.
  abbrev Claims : List RefJob → Type 0
  Claims js =
      (j : RefJob) × (rest : List RefJob) × (claim now has js ≡ (some (task_of j), rest))
      × (waits js ≡ j ∷ waits rest)
      × (map (marked now has) rest ≡ map (marked now has) js)

-- A job waits for a worker at an instant: it is neither done nor claimed, its ProcessAt has come, and the
-- worker has a handler for its type.
abbrev pub is_waiting : ℕ → (String → Bool) → RefJob → Bool
is_waiting now has j =
    if j.done then false else if j.claimed then false else has j.job_type && leb j.process_at now
