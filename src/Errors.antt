-- ===== src/Errors.antt =====
-- Go errors as values: the error types that the repository declares, with the part of Go's package
-- errors that it calls (Is, As, Join, and fmt.Errorf with %w).
--   plain     errors.New; a package-level variable is identified by its text, which is unique
--   wrapped   fmt.Errorf with one %w: the whole text and the wrapped error
--   joined    errors.Join
--   coded     *errorsx.Error (pkg/errorsx/errorsx.go)
--   rule      *domain.RuleViolation (domain/errors.go)
--   sentinel  *auth.codedError (ports/auth/auth.go)
use Prim.Native.String.{◌++◌}
use go_ddd_core.Prelude.{ℕ, String, Bool, false, ◌||◌, Option, none, some, List, [], ◌∷◌, str_eq}

-- `errorsx.Code` is a string type.
abbrev pub Code : Type 0
Code = String

mutual
  pub data Error : Type 0 where
    plain : String → Error
    wrapped : String → Error → Error
    joined : Errors → Error
    coded : Code → String → Option ℕ → Cause → Error
    rule : String → String → Error
    sentinel : Code → String → Error

  pub data Errors : Type 0 where
    nil : Errors
    cons : Error → Errors → Errors

  -- The `cause error` field: nil or an error.
  pub data Cause : Type 0 where
    no_cause : Cause
    cause : Error → Cause

-- The fields of `*errorsx.Error`. `details` is nil or a reference to a map in the heap.
pub record Coded : Type 0 where
  pub code : Code
  pub message : String
  pub details : Option ℕ
  pub cause : Cause

abbrev pub to_error : Coded → Error
to_error e = coded e.code e.message e.details e.cause

-- `e.Error()`.
unfoldable mutual
  pub error_text : Error → String
  error_text (plain s) = s
  error_text (wrapped s e) = s
  error_text (joined es) = joined_text es
  error_text (coded c m d k) = c ++ ": " ++ m ++ cause_text k
  error_text (rule c m) = c ++ ": " ++ m
  error_text (sentinel c m) = c ++ ": " ++ m

  pub joined_text : Errors → String
  joined_text nil = ""
  joined_text (cons e es) = error_text e ++ rest_text es

  pub rest_text : Errors → String
  rest_text nil = ""
  rest_text (cons e es) = "\n" ++ error_text e ++ rest_text es

  pub cause_text : Cause → String
  cause_text no_cause = ""
  cause_text (cause e) = ": " ++ error_text e

-- The pointer comparison of `errors.Is` with a package-level error variable of the given text, and
-- the `Is` method of `*RuleViolation`.
abbrev pub matches : String → Error → Bool
matches t (plain s) = str_eq s t
matches t (rule c m) = str_eq "domain: business rule violation" t
matches t (sentinel c m) = str_eq m t
matches t _ = false

-- `errors.Is(err, target)`: the error itself, then what it unwraps to, depth first.
unfoldable mutual
  pub error_is : String → Error → Bool
  error_is t (plain s) = matches t (plain s)
  error_is t (wrapped s e) = error_is t e
  error_is t (joined es) = any_is t es
  error_is t (coded c m d k) = cause_is t k
  error_is t (rule c m) = matches t (rule c m)
  error_is t (sentinel c m) = matches t (sentinel c m)

  pub any_is : String → Errors → Bool
  any_is t nil = false
  any_is t (cons e es) = error_is t e || any_is t es

  pub cause_is : String → Cause → Bool
  cause_is t no_cause = false
  cause_is t (cause e) = error_is t e

abbrev pub or_else {ℓ} : {A : Type ℓ} → Option A → Option A → Option A
or_else none b = b
or_else (some a) b = some a

-- `errors.As(err, &e)` for `e *errorsx.Error`. A `*codedError` unwraps to a fresh coded error.
unfoldable mutual
  pub as_coded : Error → Option Coded
  as_coded (plain s) = none
  as_coded (wrapped s e) = as_coded e
  as_coded (joined es) = any_coded es
  as_coded (coded c m d k) = some (record { code = c; message = m; details = d; cause = k })
  as_coded (rule c m) = none
  as_coded (sentinel c m) =
      some (record { code = c; message = m; details = none; cause = no_cause })

  pub any_coded : Errors → Option Coded
  any_coded nil = none
  any_coded (cons e es) = or_else (as_coded e) (any_coded es)

pub record RuleViolation : Type 0 where
  pub code : String
  pub message : String

-- `errors.As(err, &rv)` for `rv *domain.RuleViolation`.
unfoldable mutual
  pub as_rule : Error → Option RuleViolation
  as_rule (plain s) = none
  as_rule (wrapped s e) = as_rule e
  as_rule (joined es) = any_rule es
  as_rule (coded c m d k) = cause_rule k
  as_rule (rule c m) = some (record { code = c; message = m })
  as_rule (sentinel c m) = none

  pub any_rule : Errors → Option RuleViolation
  any_rule nil = none
  any_rule (cons e es) = or_else (as_rule e) (any_rule es)

  pub cause_rule : Cause → Option RuleViolation
  cause_rule no_cause = none
  cause_rule (cause e) = as_rule e

-- `domain.NewRuleViolation(code, message)` as an error.
unfoldable pub new_rule_violation : String → String → Error
new_rule_violation c m = rule c m

-- `errors.Join(errs...)` on errors that are not nil: nil when there is none.
unfoldable pub to_errors : List Error → Errors
to_errors [] = nil
to_errors (e ∷ es) = cons e (to_errors es)

unfoldable pub join : List Error → Option Error
join [] = none
join (e ∷ es) = some (joined (to_errors (e ∷ es)))

pub data Result {ℓ} (A : Type ℓ) : Type ℓ where
  ok : A → Result A
  err : Error → Result A
