-- ===== src/Ports/Ratelimit.antt =====
-- ports/ratelimit/ratelimit.go: the interface, and a limiter that does what its documentation and the
-- profile of its suite say: the first Allow of a key is allowed, later ones are denied.
pub mod Suite
pub mod Laws
use go_ddd_core.Prelude.{
  zero, suc, String, Bool, true, false, ◌&&◌, ◌||◌, not, ◌≡◌, Option, none, some, List, [], ◌∷◌,
  str_eq,
}
use go_ddd_core.Prelude.Int.{ℤ, pos, negsuc, leb_ℤ, ltb_ℤ}
use go_ddd_core.Errors.{Error, to_error}
use go_ddd_core.Errorsx
use go_ddd_core.Errorsx.{code_invalid_argument}
use go_ddd_core.Ports.{LimitResult, has_limit, has_remaining, unknown_count}
use go_ddd_core.Ports.Contexts.{Context, context_error, Failure, observe_option}

-- `Limiter`, of an implementation with the state `S`.
pub record Limiter (S : Type 0) : Type 0 where
  pub allow : Context → String → S → S × (LimitResult × Option Error)

pub data LimiterCall : Type 0 where
  allow : Context → String → LimiterCall

abbrev pub LimiterReply : LimiterCall → Type 0
LimiterReply (allow ctx key) = LimitResult × Option Failure

-- The port has no sentinel.
abbrev pub limiter_step : {S : Type 0} → Limiter S → (c : LimiterCall) → S → S × LimiterReply c
limiter_step l (allow ctx key) s =
    let (s', (r, e)) = l.allow ctx key s in (s', (r, observe_option "" e))

-- `Result{}`
abbrev pub no_result : LimitResult
no_result = record {
  allowed = false;
  retry_after = pos 0;
  limit = pos 0;
  remaining = pos 0;
  reset_at = none;
}

-- `n < 0 && n != UnknownCount`
abbrev pub is_malformed : ℤ → Bool
is_malformed (pos n) = false
is_malformed (negsuc zero) = false
is_malformed (negsuc (suc n)) = true

-- What the documentation of `Result` asks of its counts.
abbrev pub metadata_ok : LimitResult → Bool
metadata_ok r =
    not (is_malformed r.limit)
    && not (is_malformed r.remaining)
    && not (has_limit r && has_remaining r && ltb_ℤ r.limit r.remaining)

-- What the documentation of `Result` asks of an allowed and of a denied one.
abbrev pub IsAllowed : LimitResult → Type 0
IsAllowed r = (r.allowed ≡ true) × (r.retry_after ≡ pos 0) × (metadata_ok r ≡ true)

abbrev pub IsDenied : LimitResult → Type 0
IsDenied r = (r.allowed ≡ false) × (leb_ℤ r.retry_after (pos 0) ≡ false) × (metadata_ok r ≡ true)

abbrev pub spent : String → List String → Bool
spent key [] = false
spent key (k ∷ ks) = str_eq k key || spent key ks

-- The limiter of the profile, over the keys that have been allowed; `allowed` and `denied` are the
-- results it gives.
unfoldable pub limiter_contract :
    (String → LimitResult) → (String → LimitResult) → Limiter (List String)
limiter_contract allowed denied = record {
  allow = λ ctx key ks. elim (str_eq key "") [
    | true ↦ (ks, (no_result, some (to_error (Errorsx.new code_invalid_argument "empty key"))))
    | false ↦ elim (context_error ctx) [
      | some e ↦ (ks, (no_result, some e))
      | none ↦ elim (spent key ks) [
        | true ↦ (ks, (denied key, none))
        | false ↦ (key ∷ ks, (allowed key, none))
      ]
    ]
  ];
}
