-- ===== src/Ports/Contexts.antt =====
-- What the ports see of a context, and what their suites see of an error: its code (errorsx.CodeOf) and
-- what it is (errors.Is): a context's error, or the sentinel of the port.
use go_ddd_core.Prelude.{String, Bool, true, false, Option, none, some}
use go_ddd_core.Errors.{Code, Error, plain, error_is}
use go_ddd_core.Errorsx.{code_of, code_unknown}

-- `ctx.Err()` is nil, Canceled or DeadlineExceeded.
pub data Context : Type 0 where
  live : Context
  cancelled : Context
  expired : Context

-- `context.Canceled` and `context.DeadlineExceeded`, of the standard library.
abbrev pub err_canceled : Error
err_canceled = plain "context canceled"

abbrev pub err_deadline_exceeded : Error
err_deadline_exceeded = plain "context deadline exceeded"

-- `ctx.Err()`
abbrev pub context_error : Context → Option Error
context_error live = none
context_error cancelled = some err_canceled
context_error expired = some err_deadline_exceeded

pub record Failure : Type 0 where
  pub code : Code
  pub canceled : Bool
  pub late : Bool
  pub sentinel : Bool

-- What is seen of an error, for a port whose sentinel has the given text.
unfoldable pub observe : String → Error → Failure
observe text e = record {
  code = code_of e;
  canceled = error_is "context canceled" e;
  late = error_is "context deadline exceeded" e;
  sentinel = error_is text e;
}

abbrev pub observe_option : String → Option Error → Option Failure
observe_option text none = none
observe_option text (some e) = some (observe text e)

-- `errorsx.CodeOf(err)` and `errors.Is(err, target)`, of an error that may be nil.
abbrev pub failure_code : Option Failure → Code
failure_code none = code_unknown
failure_code (some f) = f.code

abbrev pub is_canceled : Option Failure → Bool
is_canceled none = false
is_canceled (some f) = f.canceled

abbrev pub is_late : Option Failure → Bool
is_late none = false
is_late (some f) = f.late

abbrev pub is_sentinel : Option Failure → Bool
is_sentinel none = false
is_sentinel (some f) = f.sentinel

abbrev pub succeeded : Option Failure → Bool
succeeded none = true
succeeded (some f) = false
