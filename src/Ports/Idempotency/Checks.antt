-- ===== src/Ports/Idempotency/Checks.antt =====
-- The helpers of ports/idempotency/idempotencytest/idempotencytest.go, and the values its subtests use.
use Prim.Native.String.{◌++◌}
use go_ddd_core.Prelude.{
  ℕ, String, Bool, true, false, ◌&&◌, not, Option, some, List, [], ◌∷◌, is_some, ◌==◌, str_eq,
}
use go_ddd_core.Prelude.Int.{ℤ, pos, negsuc}
use go_ddd_core.Errors.{Code}
use go_ddd_core.Errorsx.{code_conflict, code_invalid_argument}
use go_ddd_core.Ports.{
  Reservation, ReservationStatus, status_unknown, status_new, status_in_progress, status_completed,
  status_mismatch,
}
use go_ddd_core.Ports.Contexts.{live, Failure, failure_code, succeeded}
use go_ddd_core.Ports.Suite.{Script, call, require, expect}
use go_ddd_core.Ports.Idempotency.{StoreCall, StoreReply, begin, finish, make, read}

abbrev pub StoreScript : Type 0
StoreScript = Script StoreCall StoreReply

-- `testFingerprint`
abbrev pub test_fingerprint : String
test_fingerprint = "fp-v1"

-- `a == b` on statuses
abbrev pub status_eq : ReservationStatus → ReservationStatus → Bool
status_eq status_unknown status_unknown = true
status_eq status_new status_new = true
status_eq status_in_progress status_in_progress = true
status_eq status_completed status_completed = true
status_eq status_mismatch status_mismatch = true
status_eq _ _ = false

-- `n == 0`
abbrev pub is_zero : ℤ → Bool
is_zero (pos n) = n == 0
is_zero (negsuc n) = false

abbrev pub no_response : Reservation → StoreScript → StoreScript
no_response res k = expect (not (is_some res.response)) k

abbrev pub no_lease : Reservation → StoreScript → StoreScript
no_lease res k = expect (str_eq res.lease_token "") (expect (is_zero res.lease_ttl) k)

-- The switch of `beginChecked`.
abbrev pub check_fields : ReservationStatus → Reservation → StoreScript → StoreScript
check_fields status_new res k = no_response res k
check_fields status_in_progress res k = no_lease res (no_response res k)
check_fields status_mismatch res k = no_lease res (no_response res k)
check_fields status_completed res k = no_lease res k
check_fields status_unknown res k = expect false k

-- `beginChecked(t, store, scope, key, fingerprint)`
abbrev pub begin_checked : String → String → String → (Reservation → StoreScript) → StoreScript
begin_checked scope key fingerprint k = call (begin live scope key fingerprint) λ (res, e).
    require (succeeded e) (
      expect (str_eq res.scope scope)
        (expect (str_eq res.key key) (check_fields res.status res (k res))))

-- `requireStatus(t, res, want)`
abbrev pub require_status : Reservation → ReservationStatus → StoreScript → StoreScript
require_status res want k = require (status_eq res.status want) k

-- A Begin whose status is `want`.
abbrev pub begin_status :
    String → String → String → ReservationStatus → (Reservation → StoreScript) → StoreScript
begin_status scope key fingerprint want k =
    begin_checked scope key fingerprint λ res. require_status res want (k res)

-- `bytes.Equal(a, b)`
abbrev pub bytes_equal : List ℕ → List ℕ → Bool
bytes_equal [] [] = true
bytes_equal [] (d ∷ ds) = false
bytes_equal (c ∷ cs) [] = false
bytes_equal (c ∷ cs) (d ∷ ds) = c == d && bytes_equal cs ds

-- `requireResponse(t, res, want)`
abbrev pub require_response : Reservation → List ℕ → StoreScript → StoreScript
require_response res want k = call (read res.response) λ bs. require (bytes_equal bs want) k

-- `requireCode(t, err, want, op)`
abbrev pub require_code : Option Failure → Code → StoreScript → StoreScript
require_code e want k = require (str_eq (failure_code e) want) k

abbrev pub require_conflict : Option Failure → StoreScript → StoreScript
require_conflict e k = require_code e code_conflict k

abbrev pub require_invalid : Option Failure → StoreScript → StoreScript
require_invalid e k = require_code e code_invalid_argument k

-- `store.Finish(ctx, res, []byte(...))`
abbrev pub finish_bytes : Reservation → List ℕ → (Option Failure → StoreScript) → StoreScript
finish_bytes res bs k = call (make bs) λ r. call (finish live res (some r)) λ e. k e

-- A Finish that succeeds.
abbrev pub must_finish : Reservation → List ℕ → StoreScript → StoreScript
must_finish res bs k = finish_bytes res bs λ e. require (succeeded e) k

-- `forged.LeaseToken = res.LeaseToken + "-forged"`
abbrev pub forge : Reservation → Reservation
forge res = record res { lease_token = res.lease_token ++ "-forged" }
