-- ===== src/Ports/Jobs/Delivery/Suite.antt =====
-- ports/jobs/jobstest/delivery.go, subtest by subtest, with the handlers of the subtests. A deferred
-- shutdown stands at the end of the subtest; after a `t.Fatal` it cannot change the verdict.
use go_ddd_core.Prelude.{
  ℕ, zero, suc, ◌+◌, ◌-◌, String, Bool, true, false, not, ◌&&◌, Option, none, some, List, [], ◌∷◌,
  ◌++◌, map, length, ltb, leb, ◌==◌, str_eq, is_some, if◌then◌else◌,
}
use go_ddd_core.Prelude.Int.{ℤ, pos, negsuc, pos_part}
use go_ddd_core.Prelude.Int64.{add64}
use go_ddd_core.Errors.{Error, to_error}
use go_ddd_core.Errorsx
use go_ddd_core.Errorsx.{code_internal, code_already_exists}
use go_ddd_core.Ports.Contexts.{live, Failure, failure_code, succeeded}
use go_ddd_core.Ports.Suite.{Script, done, fatal, call, require}
use go_ddd_core.Ports.Jobs.{Job, JobInfo}
use go_ddd_core.Ports.Jobs.Delivery.{
  Signal, pulse, instant, text, ctx_error, Captured, Outcome, returned, stuck, until_done, Handler,
  Channel, DeliveryCall, DeliveryReply, new_worker, register, run, cancel, enqueue, receive,
  receive_either, await_run, load, clock,
}

-- Durations are in the unit of the clock.
pub record DeliveryBounds : Type 0 where
  pub shutdown_within : ℤ
  pub deliver_within : ℤ
  pub redeliver_within : ℤ
  pub process_at_delay : ℤ

abbrev pub DeliveryScript : Type 0
DeliveryScript = Script DeliveryCall DeliveryReply

-- `d > 0`
abbrev pub positive : ℤ → Bool
positive (pos zero) = false
positive (pos (suc n)) = true
positive (negsuc n) = false

-- `b.validate(t)`
abbrev pub validate : DeliveryBounds → DeliveryScript → DeliveryScript
validate b k = require (positive b.shutdown_within) (
    require (positive b.deliver_within)
      (require (positive b.redeliver_within) (require (positive b.process_at_delay) k)))

abbrev job : String → Job
job t = record { job_type = t; payload = []; process_at = 0 }

abbrev transient : Error
transient = to_error (Errorsx.new code_internal "transient")

-- `Run` has returned nil within the bound.
abbrev pub returned_nil : Option (Option Failure) → Bool
returned_nil none = false
returned_nil (some e) = succeeded e

abbrev pub assert_run_nil_within : ℕ → ℤ → DeliveryScript → DeliveryScript
assert_run_nil_within w bound k =
    call (await_run w (pos_part bound)) λ r. require (returned_nil r) k

abbrev pub must_register : ℕ → String → Handler → DeliveryScript → DeliveryScript
must_register w t h k = call (register w t (some h)) λ e. require (succeeded e) k

abbrev pub must_enqueue : Job → (JobInfo → DeliveryScript) → DeliveryScript
must_enqueue j k = call (enqueue live j) λ (info, e). require (succeeded e) (k info)

-- `runWorker` of a new worker with one handler.
abbrev pub with_worker : String → Handler → (ℕ → DeliveryScript) → DeliveryScript
with_worker t h k = call new_worker λ w. must_register w t h (call (run w) λ _. k w)

-- `func() { cancel(); assertRunNilWithin(...) }()`
abbrev pub shutdown : DeliveryBounds → ℕ → DeliveryScript
shutdown b w = call (cancel w) λ _. assert_run_nil_within w b.shutdown_within done

abbrev pub on_signal : Option Signal → (Signal → DeliveryScript) → DeliveryScript
on_signal none k = fatal
on_signal (some m) k = k m

-- `select` between a channel and `time.After(d)`, where the time-out is a `t.Fatal`.
abbrev pub must_receive : Channel → ℤ → (Signal → DeliveryScript) → DeliveryScript
must_receive c d k = call (receive c (pos_part d)) λ m. on_signal m k

-- A send on a channel of the given capacity, and how the handler ends then; on a full channel it blocks.
abbrev send_first : ℕ → Signal → Outcome → Captured → List ℕ → Captured × (List ℕ × Outcome)
send_first cap m o c bytes =
    if ltb (length c.first) cap
    then (record c { first = c.first ++ m ∷ [] }, (bytes, o))
    else (c, (bytes, stuck))

abbrev send_second : ℕ → Signal → Outcome → Captured → List ℕ → Captured × (List ℕ × Outcome)
send_second cap m o c bytes =
    if ltb (length c.second) cap
    then (record c { second = c.second ++ m ∷ [] }, (bytes, o))
    else (c, (bytes, stuck))

-- `if attempts.Add(1) == 1 { ... }`
abbrev counted : Captured → Captured
counted c = record c { attempts = suc c.attempts }

abbrev on_first_attempt {ℓ} : {A : Type ℓ} → Captured → A → A → A
on_first_attempt c x y = if c.attempts == 0 then x else y

abbrev pub pulse_and_return : Handler
pulse_and_return now task c = send_first 1 pulse (returned none) c task.payload

unfoldable pub retry_handler : Handler
retry_handler now task c =
    on_first_attempt c (counted c, (task.payload, returned (some transient)))
      (send_first 1 pulse (returned none) (counted c) task.payload)

unfoldable pub scheduled_handler : Handler
scheduled_handler now task c = send_first 1 (instant now) (returned none) c task.payload

unfoldable pub straggler_handler : Handler
straggler_handler now task c = send_first 1 pulse stuck c task.payload

-- The first attempt overwrites the payload with 'X'.
unfoldable pub mutating_handler : Handler
mutating_handler now task c =
    on_first_attempt c (counted c, (map (λ _. 88) task.payload, returned (some transient)))
      (send_first 1 (text task.payload) (returned none) (counted c) task.payload)

abbrev with_seen : String → Captured → Captured
with_seen i c = record c { seen = c.seen ++ i ∷ [] }

unfoldable pub identity_handler : Handler
identity_handler now task c =
    on_first_attempt c (counted (with_seen task.id c), (task.payload, returned (some transient)))
      (send_first 1 pulse (returned none) (counted (with_seen task.id c)) task.payload)

abbrev report_ctx_error : Error → Captured → Captured × Option Error
report_ctx_error e c = (record c { second = c.second ++ ctx_error e ∷ [] }, some e)

unfoldable pub waiting_handler : Handler
waiting_handler now task c = send_first 1 pulse (until_done report_ctx_error) c task.payload

unfoldable pub counting_handler : Handler
counting_handler now task c = send_first 2 pulse (returned none) (counted c) task.payload

unfoldable pub second_handler : Handler
second_handler now task c = send_second 1 pulse (returned none) c task.payload

abbrev pub nil_handler : Handler
nil_handler now task c = (c, (task.payload, returned none))

-- "orig"
abbrev original : List ℕ
original = 111 ∷ 114 ∷ 105 ∷ 103 ∷ []

abbrev bytes_equal : List ℕ → List ℕ → Bool
bytes_equal [] [] = true
bytes_equal (x ∷ xs) (y ∷ ys) = x == y && bytes_equal xs ys
bytes_equal _ _ = false

abbrev carries : List ℕ → Signal → Bool
carries bs (text xs) = bytes_equal xs bs
carries bs _ = false

abbrev not_before : ℕ → Signal → Bool
not_before at (instant t) = leb at t
not_before at _ = false

abbrev all_equal : String → List String → Bool
all_equal i [] = true
all_equal i (x ∷ xs) = str_eq x i && all_equal i xs

abbrev is_first : Option Channel → Bool
is_first (some Channel.first) = true
is_first _ = false

abbrev is_duplicate : Option Failure → Bool
is_duplicate e = str_eq (failure_code e) code_already_exists

-- `time.Hour`, where the unit is a nanosecond.
abbrev hour : ℕ
hour = 3600000000000

-- `for range 50 { go func() { _, _ = fx.Enqueuer.Enqueue(...) }() }`, in the order of the calls.
abbrev enqueue_times : ℕ → Job → DeliveryScript → DeliveryScript
enqueue_times zero j k = k
enqueue_times (suc n) j k = call (enqueue live j) λ _. enqueue_times n j k

module _ (b : DeliveryBounds) where
  unfoldable pub failed_attempt_redelivered : DeliveryScript
  failed_attempt_redelivered = validate b (
      with_worker "a:retry" retry_handler λ w. must_enqueue (job "a:retry") λ _.
        must_receive Channel.first b.redeliver_within
          λ _. call load λ c. require (leb 2 c.attempts) (shutdown b w))

  unfoldable pub not_before_process_at : DeliveryScript
  not_before_process_at = validate b (
      call new_worker λ w. call clock λ now.
        let at = now + pos_part b.process_at_delay in
        must_register w "b:sched" scheduled_handler (
          call (run w) λ _.
            must_enqueue (record { job_type = "b:sched"; payload = []; process_at = at })
              λ _.
                must_receive Channel.first (add64 b.process_at_delay b.deliver_within)
                  λ m. require (not_before at m) (shutdown b w)))

  unfoldable pub past_process_at_eligible : DeliveryScript
  past_process_at_eligible = validate b (
      with_worker "p:past" pulse_and_return λ w. call clock λ now.
        must_enqueue (record { job_type = "p:past"; payload = []; process_at = now - hour })
          λ _. must_receive Channel.first b.deliver_within λ _. shutdown b w)

  unfoldable pub run_returns_nil_on_cancel : DeliveryScript
  run_returns_nil_on_cancel = validate b (
      with_worker "c:straggler" straggler_handler λ w.
        must_enqueue (job "c:straggler")
          λ _. must_receive Channel.first b.deliver_within λ _. shutdown b w)

  unfoldable pub payload_mutation_isolated : DeliveryScript
  payload_mutation_isolated = validate b (
      with_worker "d:mut" mutating_handler λ w.
        must_enqueue (record { job_type = "d:mut"; payload = original; process_at = 0 })
          λ _.
            must_receive Channel.first b.redeliver_within
              λ m. require (carries original m) (shutdown b w))

  unfoldable pub id_stable_across_redeliveries : DeliveryScript
  id_stable_across_redeliveries = validate b (
      with_worker "e:id" identity_handler λ w. must_enqueue (job "e:id") λ info.
        must_receive Channel.first b.redeliver_within
          λ _. call load λ c. require (all_equal info.id c.seen) (shutdown b w))

  unfoldable pub handler_ctx_cancelled_on_shutdown : DeliveryScript
  handler_ctx_cancelled_on_shutdown = validate b (
      with_worker "j:wait" waiting_handler λ w. must_enqueue (job "j:wait") λ _.
        must_receive Channel.first b.deliver_within λ _. call (cancel w) λ _.
          must_receive Channel.second b.shutdown_within
            λ _. assert_run_nil_within w b.shutdown_within done)

  unfoldable pub exact_type_dispatch_no_prefix : DeliveryScript
  exact_type_dispatch_no_prefix = validate b (
      with_worker "t" counting_handler λ w. must_enqueue (job "t") λ _.
        must_receive Channel.first b.deliver_within λ _. must_enqueue (job "t:x") λ _.
          call (receive Channel.first (pos_part b.deliver_within)) λ m.
            require (not (is_some m)) (call load λ c. require (c.attempts == 1) (shutdown b w)))

  unfoldable pub duplicate_register_keeps_original : DeliveryScript
  duplicate_register_keeps_original = validate b (
      call new_worker λ w. must_register w "o:dup" pulse_and_return (
        call (register w "o:dup" (some second_handler)) λ e. require (is_duplicate e) (
          call (run w) λ _. must_enqueue (job "o:dup") λ _.
            call (receive_either (pos_part b.deliver_within))
              λ m. require (is_first m) (shutdown b w))))

  unfoldable pub new_worker_delivers_after_stop : DeliveryScript
  new_worker_delivers_after_stop = validate b (
      call clock λ now.
        must_enqueue
          (record {
            job_type = "r:job";
            payload = [];
            process_at = now + pos_part b.process_at_delay;
          })
          λ _. with_worker "r:job" nil_handler λ w1. call (cancel w1) λ _.
            assert_run_nil_within w1 b.shutdown_within (
              with_worker "r:job" pulse_and_return λ w2.
                must_receive Channel.first (add64 b.process_at_delay b.deliver_within)
                  λ _. shutdown b w2))

  unfoldable pub concurrent_enqueue_smoke : DeliveryScript
  concurrent_enqueue_smoke =
      validate b
        (with_worker "l:job" nil_handler λ w. enqueue_times 50 (job "l:job") (shutdown b w))

  -- `RunDeliveryContract`
  unfoldable pub run_delivery_contract : List DeliveryScript
  unfolding failed_attempt_redelivered not_before_process_at past_process_at_eligible
      run_returns_nil_on_cancel payload_mutation_isolated id_stable_across_redeliveries
      handler_ctx_cancelled_on_shutdown exact_type_dispatch_no_prefix
      duplicate_register_keeps_original new_worker_delivers_after_stop concurrent_enqueue_smoke
  run_delivery_contract =
      failed_attempt_redelivered ∷ not_before_process_at ∷ past_process_at_eligible
      ∷ run_returns_nil_on_cancel ∷ payload_mutation_isolated ∷ id_stable_across_redeliveries
      ∷ handler_ctx_cancelled_on_shutdown ∷ exact_type_dispatch_no_prefix
      ∷ duplicate_register_keeps_original ∷ new_worker_delivers_after_stop
      ∷ concurrent_enqueue_smoke ∷ []
