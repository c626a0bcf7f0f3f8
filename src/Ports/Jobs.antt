-- ===== src/Ports/Jobs.antt =====
-- ports/jobs/jobs.go: jobs, the two interfaces over one store, and a store that does what their
-- documentation says at the calls that return at once. A handler is known by a number, a nil one is
-- none; a payload is the bytes of its snapshot; a time is in nanoseconds, zero for as soon as possible.
pub mod Suite
pub mod Laws
pub mod Delivery
pub mod Reference
use Prim.Native.String.{◌++◌}
use go_ddd_core.Prelude.{
  ℕ, suc, String, Bool, true, false, not, Option, none, some, List, [], ◌∷◌, str_eq, is_some,
}
use go_ddd_core.Prelude.Dict.{Dict, lookup, insert}
use go_ddd_core.Errors.{Error, to_error}
use go_ddd_core.Errorsx
use go_ddd_core.Errorsx.{code_invalid_argument, code_already_exists}
use go_ddd_core.Ports.Contexts.{Context, context_error, Failure, observe_option}

pub record Job : Type 0 where
  pub job_type : String
  pub payload : List ℕ
  pub process_at : ℕ

pub record JobInfo : Type 0 where
  pub id : String

-- `JobInfo{}`
abbrev pub no_info : JobInfo
no_info = record { id = "" }

-- `Enqueuer` and `Worker` over one store with the state `S`, as the Backend of the suite has them.
pub record Backend (S : Type 0) : Type 0 where
  pub enqueue : Context → Job → S → S × (JobInfo × Option Error)
  pub register : String → Option ℕ → S → S × Option Error

pub data JobsCall : Type 0 where
  enqueue : Context → Job → JobsCall
  register : String → Option ℕ → JobsCall

abbrev pub JobsReply : JobsCall → Type 0
JobsReply (enqueue ctx job) = JobInfo × Option Failure
JobsReply (register job_type h) = Option Failure

-- The port has no sentinel.
abbrev pub jobs_step : {S : Type 0} → Backend S → (c : JobsCall) → S → S × JobsReply c
jobs_step b (enqueue ctx job) s =
    let (s', (info, e)) = b.enqueue ctx job s in (s', (info, observe_option "" e))
jobs_step b (register job_type h) s =
    let (s', e) = b.register job_type h s in (s', observe_option "" e)

-- The jobs that have been enqueued, with their identifiers, and the handlers.
pub record JobStore : Type 0 where
  pub pending : Dict Job
  pub handlers : Dict ℕ

abbrev pub new_job_store : JobStore
new_job_store = record { pending = []; handlers = [] }

abbrev pub invalid : String → Error
invalid msg = to_error (Errorsx.new code_invalid_argument msg)

-- `in_horizon` is the scheduling horizon of the store, and `fresh` the identifier of a new job.
module _ (in_horizon : ℕ → Bool) (fresh : JobStore → String) where
  unfoldable pub contract_enqueue : Context → Job → JobStore → JobStore × (JobInfo × Option Error)
  contract_enqueue ctx job s = elim (str_eq job.job_type "") [
    | true ↦ (s, (no_info, some (invalid "empty type")))
    | false ↦ elim (in_horizon job.process_at) [
      | false ↦ (s, (no_info, some (invalid "out of the scheduling horizon")))
      | true ↦ elim (context_error ctx) [
        | some e ↦ (s, (no_info, some e))
        | none ↦
            (record s { pending = insert (fresh s) job s.pending }, (record { id = fresh s }, none))
      ]
    ]
  ]

unfoldable pub contract_register : String → Option ℕ → JobStore → JobStore × Option Error
contract_register job_type none s = (s, some (invalid "nil handler"))
contract_register job_type (some h) s = elim (str_eq job_type "") [
  | true ↦ (s, some (invalid "empty type"))
  | false ↦ elim (is_some (lookup job_type s.handlers)) [
    | true ↦ (s, some (to_error (Errorsx.new code_already_exists "type has a handler")))
    | false ↦ (record s { handlers = insert job_type h s.handlers }, none)
  ]
]

abbrev pub jobs_contract : (ℕ → Bool) → (JobStore → String) → Backend JobStore
jobs_contract in_horizon fresh = record {
  enqueue = contract_enqueue in_horizon fresh;
  register = contract_register;
}
