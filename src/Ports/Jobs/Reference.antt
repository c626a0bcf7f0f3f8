-- ===== src/Ports/Jobs/Reference.antt =====
-- The reference store of ports/jobs/jobstest/delivery_test.go. Go's map of the jobs is a list, in the
-- order in which `range` meets them; a new identifier is not among its keys, since `seq` grows. `name` is
-- the text that fmt makes of a number.
pub mod Claims
pub mod Exclusive
pub mod Histories
use go_ddd_core.Prelude.{
  ℕ, zero, suc, ◌+◌, String, Bool, true, false, not, ◌&&◌, ◌||◌, Option, none, some, List, [], ◌∷◌,
  ◌++◌, leb, str_eq, if◌then◌else◌,
}
use go_ddd_core.Ports.Jobs.{Job}
use go_ddd_core.Ports.Jobs.Delivery.{Task}

-- `refJob`
pub record RefJob : Type 0 where
  pub id : String
  pub job_type : String
  pub payload : List ℕ
  pub process_at : ℕ
  pub attempts : ℕ
  pub claimed : Bool
  pub done : Bool

-- `refStore`
pub record RefStore : Type 0 where
  pub seq : ℕ
  pub jobs : List RefJob

-- `newRefStore()`
abbrev pub new_ref_store : RefStore
new_ref_store = record { seq = 0; jobs = [] }

abbrev pub new_ref_job : String → Job → RefJob
new_ref_job i job = record {
  id = i;
  job_type = job.job_type;
  payload = job.payload;
  process_at = job.process_at;
  attempts = 0;
  claimed = false;
  done = false;
}

-- `s.enqueue(job)`
unfoldable pub store_enqueue : (ℕ → String) → Job → RefStore → RefStore × String
store_enqueue name job s =
    let i = name (suc s.seq) in
    (record { seq = suc s.seq; jobs = s.jobs ++ new_ref_job i job ∷ [] }, i)

-- Not `!j.processAt.IsZero() && j.processAt.After(now)`.
abbrev pub arrived : ℕ → ℕ → Bool
arrived zero now = true
arrived (suc at) now = leb (suc at) now

-- The tests of the loop of `claim`, with the types that have a handler.
abbrev pub eligible : ℕ → (String → Bool) → RefJob → Bool
eligible now has j = not (j.done || j.claimed) && (arrived j.process_at now && has j.job_type)

abbrev pub taken : RefJob → RefJob
taken j = record j { claimed = true; attempts = suc j.attempts }

-- The snapshot that `claim` returns, which becomes the Task of a handler.
abbrev pub task_of : RefJob → Task
task_of j = record { id = j.id; task_type = j.job_type; payload = j.payload }

-- `s.claim(now, has)`
unfoldable pub claim : ℕ → (String → Bool) → List RefJob → Option Task × List RefJob
claim now has [] = (none, [])
claim now has (j ∷ js) =
    let (c, rest) = claim now has js in
    if eligible now has j then (some (task_of j), taken j ∷ js) else (c, j ∷ rest)

-- `if j := s.jobs[id]; j != nil { ... }`
abbrev pub change : (RefJob → RefJob) → String → List RefJob → List RefJob
change f i [] = []
change f i (j ∷ js) = let rest = change f i js in if str_eq j.id i then f j ∷ js else j ∷ rest

-- `s.complete(id)`
unfoldable pub complete : String → List RefJob → List RefJob
complete i js = change (λ j. record j { done = true }) i js

-- `s.retry(id, after, now)`
unfoldable pub retry : String → ℕ → ℕ → List RefJob → List RefJob
retry i after now js = change (λ j. record j { claimed = false; process_at = now + after }) i js
