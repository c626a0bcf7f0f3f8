-- ===== src/Grpc.antt =====
-- transport/grpc/errorx.go and transport/grpc/interceptor.go: gRPC status codes of errorsx codes, and
-- the interceptors and services of a list of providers.
pub mod Laws
use go_ddd_core.Prelude.{ℕ, String, Option, none, some, List, [], ◌∷◌, ◌++◌}
use go_ddd_core.Prelude.Dict.{Dict, lookup}
use go_ddd_core.Errors.{Code}
use go_ddd_core.Errorsx.{
  code_unknown, code_invalid_argument, code_not_found, code_already_exists, code_unauthorized,
  code_forbidden, code_conflict, code_rate_limited, code_internal, code_unavailable,
}
use go_ddd_core.Httpx.{status_or}

abbrev pub status_ok : ℕ
status_ok = 0

abbrev pub status_unknown : ℕ
status_unknown = 2

abbrev pub status_invalid_argument : ℕ
status_invalid_argument = 3

abbrev pub status_not_found : ℕ
status_not_found = 5

abbrev pub status_already_exists : ℕ
status_already_exists = 6

abbrev pub status_permission_denied : ℕ
status_permission_denied = 7

abbrev pub status_resource_exhausted : ℕ
status_resource_exhausted = 8

abbrev pub status_aborted : ℕ
status_aborted = 10

abbrev pub status_internal : ℕ
status_internal = 13

abbrev pub status_unavailable : ℕ
status_unavailable = 14

abbrev pub status_unauthenticated : ℕ
status_unauthenticated = 16

-- `statusByErrorsxCode`
unfoldable pub status_by_errorsx_code : Dict ℕ
status_by_errorsx_code =
    (code_unknown, status_unknown)
    ∷ (code_invalid_argument, status_invalid_argument)
    ∷ (code_not_found, status_not_found)
    ∷ (code_already_exists, status_already_exists)
    ∷ (code_unauthorized, status_unauthenticated)
    ∷ (code_forbidden, status_permission_denied)
    ∷ (code_conflict, status_aborted)
    ∷ (code_rate_limited, status_resource_exhausted)
    ∷ (code_internal, status_internal)
    ∷ (code_unavailable, status_unavailable)
    ∷ []

-- `CodeFromErrorsx(c)`
unfoldable pub code_from_errorsx : Code → ℕ
unfolding status_by_errorsx_code lookup
code_from_errorsx c = status_or status_unknown (lookup c status_by_errorsx_code)

-- An `InterceptorProvider`: what its two methods return.
pub record InterceptorProvider {ℓ} (I : Type ℓ) : Type ℓ where
  pub unary_interceptors : List I
  pub stream_interceptors : List I

module _ {ℓ} {I : Type ℓ} where
  -- One round of the loop of `CombineInterceptorProviders`; a nil provider is skipped.
  abbrev pub combine_step : List I × List I → Option (InterceptorProvider I) → List I × List I
  combine_step acc none = acc
  combine_step (unary, stream) (some p) =
      (unary ++ p.unary_interceptors, stream ++ p.stream_interceptors)

  unfoldable pub combine_loop :
      List I × List I → List (Option (InterceptorProvider I)) → List I × List I
  combine_loop acc [] = acc
  combine_loop acc (p ∷ ps) = combine_loop (combine_step acc p) ps

  unfoldable pub combine_interceptor_providers :
      List (Option (InterceptorProvider I)) → List I × List I
  unfolding combine_loop
  combine_interceptor_providers ps = combine_loop ([], []) ps

module _ {ℓ} {P : Type ℓ} where
  -- The loop of `CollectServiceProviders`.
  unfoldable pub collect_loop : List P → List (Option P) → List P
  collect_loop out [] = out
  collect_loop out (none ∷ ps) = collect_loop out ps
  collect_loop out (some p ∷ ps) = collect_loop (out ++ p ∷ []) ps

  unfoldable pub collect_service_providers : List (Option P) → List P
  unfolding collect_loop
  collect_service_providers ps = collect_loop [] ps
