-- ===== src/Ports/Ratelimit/Suite.antt =====
-- ports/ratelimit/ratelimittest/ratelimittest.go, subtest by subtest.
use go_ddd_core.Prelude.{Option, String, Bool, not, List, [], ◌∷◌, str_eq}
use go_ddd_core.Prelude.Int.{ℤ, pos, negsuc, leb_ℤ}
use go_ddd_core.Errorsx.{code_invalid_argument}
use go_ddd_core.Ports.Contexts.{
  live, cancelled, expired, Failure, failure_code, is_canceled, is_late, succeeded,
}
use go_ddd_core.Ports.Suite.{Script, done, call, require}
use go_ddd_core.Ports.Ratelimit.{LimiterCall, LimiterReply, allow, metadata_ok}

abbrev LimiterScript : Type 0
LimiterScript = Script LimiterCall LimiterReply

abbrev pub key_a : String
key_a = "ratelimittest:a"

abbrev pub key_b : String
key_b = "ratelimittest:b"

abbrev is_invalid : Option Failure → Bool
is_invalid e = str_eq (failure_code e) code_invalid_argument

unfoldable pub empty_key_invalid_argument : LimiterScript
empty_key_invalid_argument =
    call (allow live "") λ (res, e). require (is_invalid e) (require (not res.allowed) done)

unfoldable pub empty_key_precedes_cancelled_ctx : LimiterScript
empty_key_precedes_cancelled_ctx =
    call (allow cancelled "")
      λ (res, e). require (is_invalid e) (require (not (is_canceled e)) done)

unfoldable pub empty_key_precedes_expired_deadline : LimiterScript
empty_key_precedes_expired_deadline =
    call (allow expired "") λ (res, e). require (is_invalid e) (require (not (is_late e)) done)

unfoldable pub pre_cancelled_ctx : LimiterScript
pre_cancelled_ctx = call (allow cancelled key_a) λ (res, e). require (is_canceled e) done

unfoldable pub pre_expired_ctx : LimiterScript
pre_expired_ctx = call (allow expired key_a) λ (res, e). require (is_late e) done

unfoldable pub first_allowed_second_denied : LimiterScript
first_allowed_second_denied = call (allow live key_a) λ (first, e). require (succeeded e) (
    require first.allowed (
      call (allow live key_a)
        λ (second, f). require (succeeded f) (require (not second.allowed) done)))

abbrev is_zero : ℤ → Bool
is_zero (pos n) = leb_ℤ (pos n) (pos 0)
is_zero (negsuc n) = leb_ℤ (pos 0) (negsuc n)

unfoldable pub retry_after_invariant : LimiterScript
retry_after_invariant = call (allow live key_a) λ (allowed, e). require (succeeded e) (
    require (is_zero allowed.retry_after) (
      call (allow live key_a) λ (denied, f).
        require (succeeded f) (require (not (leb_ℤ denied.retry_after (pos 0))) done)))

unfoldable pub key_isolation : LimiterScript
key_isolation = call (allow live key_a) λ (r, e). require (succeeded e) (
    call (allow live key_a) λ (s, f).
      require (succeeded f)
        (call (allow live key_b) λ (res, g). require (succeeded g) (require res.allowed done)))

unfoldable pub metadata_shape : LimiterScript
metadata_shape = call (allow live key_a) λ (allowed, e). require (succeeded e) (
    require (metadata_ok allowed) (
      call (allow live key_a)
        λ (denied, f). require (succeeded f) (require (metadata_ok denied) done)))

-- `RunContract`
unfoldable pub run_contract : List LimiterScript
unfolding empty_key_invalid_argument empty_key_precedes_cancelled_ctx
    empty_key_precedes_expired_deadline pre_cancelled_ctx pre_expired_ctx
    first_allowed_second_denied retry_after_invariant key_isolation metadata_shape
run_contract =
    empty_key_invalid_argument ∷ empty_key_precedes_cancelled_ctx
    ∷ empty_key_precedes_expired_deadline ∷ pre_cancelled_ctx ∷ pre_expired_ctx
    ∷ first_allowed_second_denied ∷ retry_after_invariant ∷ key_isolation ∷ metadata_shape ∷ []
