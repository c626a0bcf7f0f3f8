-- ===== src/Ports/Auth/Access.antt =====
-- ports/auth/auth.go and ports/auth/authz.go: a verifier of tokens and an authorizer, over the state `S` of
-- an adapter, the functions that stand for one, and what an HTTP adapter that writes their errors with
-- `httpx.WriteJSON` answers.
use go_ddd_core.Prelude.{ℕ, String, ◌≡◌, refl, Option, none, some, List, [], ◌∷◌}
use go_ddd_core.Errors.{Code, Error, wrapped, sentinel, as_coded}
use go_ddd_core.Errorsx.Maps.{Heap}
use go_ddd_core.Httpx.{Response, status_from_code, translate, translate_coded, write_json}
use go_ddd_core.Ports.Contexts.{Context}
use go_ddd_core.Ports.Auth.{
  Identity, err_token_missing, err_token_invalid, err_token_expired, err_forbidden,
  err_invalid_authorization_request,
}

-- `Resource`
pub record Resource : Type 0 where
  pub resource_type : String
  pub id : String

-- `TokenVerifier`
pub record TokenVerifier (S : Type 0) : Type 0 where
  pub verify : Context → String → S → S × (Identity × Option Error)

-- `Authorizer`
pub record Authorizer (S : Type 0) : Type 0 where
  pub allow : Context → Identity → String → Resource → S → S × Option Error

-- `TokenVerifierFunc` with its method `Verify`.
unfoldable pub token_verifier_func :
    {S : Type 0} → (Context → String → S → S × (Identity × Option Error)) → TokenVerifier S
token_verifier_func f = record { verify = λ ctx token s. f ctx token s }

-- `AuthorizerFunc` with its method `Allow`.
unfoldable pub authorizer_func :
    {S : Type 0} → (Context → Identity → String → Resource → S → S × Option Error) → Authorizer S
authorizer_func f = record { allow = λ ctx caller action r s. f ctx caller action r s }

-- An error in layers of `fmt.Errorf` with one %w, each with its whole text, the outermost first.
abbrev pub wraps : List String → Error → Error
wraps [] e = e
wraps (t ∷ ts) e = wrapped t (wraps ts e)

as_coded-wraps : (ts : List String) (e : Error) → as_coded (wraps ts e) ≡ as_coded e
unfolding as_coded
as_coded-wraps [] e = refl
as_coded-wraps (t ∷ ts) e = as_coded-wraps ts e

-- What `httpx.WriteJSON` writes for a sentinel: its code and message, without details.
abbrev pub sentinel_response : ℕ → Code → String → Response
sentinel_response s c m = record {
  content_type = "application/json; charset=utf-8";
  status = s;
  body = record { code = c; message = m; details = none };
}

write_json-sentinel :
    (ts : List String) (c : Code) (m : String) (h : Heap)
    → write_json (some (wraps ts (sentinel c m))) h
      ≡ (sentinel_response (status_from_code c) c m, h)
unfolding write_json translate as_coded
write_json-sentinel ts c m h = rw (as_coded-wraps ts (sentinel c m), translate_coded) refl

-- However often a refusal of a verifier or of an authorizer is wrapped with %w, an HTTP adapter answers
-- it by the status of its sentinel, with the sentinel's own code and message, and no wrapping text or
-- detail: 401 for the three of a token, 403 for a denial, and 400 for a malformed request.
pub write_json-wraps :
    (ts : List String) (h : Heap)
    → (write_json (some (wraps ts err_token_missing)) h
        ≡ (sentinel_response 401 "unauthorized" "auth: token missing", h))
      × (write_json (some (wraps ts err_token_invalid)) h
          ≡ (sentinel_response 401 "unauthorized" "auth: token invalid", h))
      × (write_json (some (wraps ts err_token_expired)) h
          ≡ (sentinel_response 401 "unauthorized" "auth: token expired", h))
      × (write_json (some (wraps ts err_forbidden)) h
          ≡ (sentinel_response 403 "forbidden" "auth: forbidden", h))
      × (write_json (some (wraps ts err_invalid_authorization_request)) h
          ≡ (sentinel_response 400 "invalid_argument" "auth: invalid authorization request", h))
unfolding status_from_code
write_json-wraps ts h = (
  write_json-sentinel ts _ _ h,
  write_json-sentinel ts _ _ h,
  write_json-sentinel ts _ _ h,
  write_json-sentinel ts _ _ h,
  write_json-sentinel ts _ _ h,
)
