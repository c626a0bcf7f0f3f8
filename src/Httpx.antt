-- ===== src/Httpx.antt =====
-- pkg/errorsx/httpx/mapping.go: HTTP status and JSON error body of an error. The bytes that
-- encoding/json writes are not modelled: a response holds the body that is encoded.
pub mod Laws
use go_ddd_core.Prelude.{ℕ, String, Option, none, some, List, [], ◌∷◌}
use go_ddd_core.Prelude.Dict.{Dict, lookup}
use go_ddd_core.Errors.{Code, Error, Coded, RuleViolation, as_coded, as_rule, error_text}
use go_ddd_core.Errorsx.{
  code_unknown, code_invalid_argument, code_not_found, code_already_exists, code_unauthorized,
  code_forbidden, code_conflict, code_rate_limited, code_internal, code_unavailable, new,
  with_detail,
}
use go_ddd_core.Errorsx.Maps.{Heap, text}

-- `statusByCode`
unfoldable pub status_by_code : Dict ℕ
status_by_code =
    (code_unknown, 500)
    ∷ (code_invalid_argument, 400)
    ∷ (code_not_found, 404)
    ∷ (code_already_exists, 409)
    ∷ (code_unauthorized, 401)
    ∷ (code_forbidden, 403)
    ∷ (code_conflict, 409)
    ∷ (code_rate_limited, 429)
    ∷ (code_internal, 500)
    ∷ (code_unavailable, 503)
    ∷ []

abbrev pub status_or : ℕ → Option ℕ → ℕ
status_or d none = d
status_or d (some s) = s

-- `StatusFromCode(c)`
unfoldable pub status_from_code : Code → ℕ
unfolding status_by_code lookup
status_from_code c = status_or 500 (lookup c status_by_code)

pub record Body : Type 0 where
  pub code : Code
  pub message : String
  pub details : Option ℕ

-- `FromRuleViolation(rv)`
unfoldable pub from_rule_violation : Option RuleViolation → Heap → Coded × Heap
from_rule_violation none h = (new code_invalid_argument "", h)
from_rule_violation (some rv) h =
    with_detail (new code_invalid_argument rv.message) "rule" (text rv.code) h

-- The body and status of a coded error.
abbrev pub coded_body : Coded → Body × ℕ
coded_body e =
    (record { code = e.code; message = e.message; details = e.details }, status_from_code e.code)

-- `Translate(err)`; a nil error is `none`. The heap grows by the details of a rule violation.
unfoldable pub translate_rule : Error → Option RuleViolation → Heap → (Body × ℕ) × Heap
translate_rule e none h =
    ((record { code = code_unknown; message = error_text e; details = none }, 500), h)
translate_rule e (some rv) h = let (ex, h') = from_rule_violation (some rv) h in (coded_body ex, h')

unfoldable pub translate_coded : Error → Option Coded → Heap → (Body × ℕ) × Heap
unfolding translate_rule
translate_coded e none h = translate_rule e (as_rule e) h
translate_coded e (some ex) h = (coded_body ex, h)

unfoldable pub translate : Option Error → Heap → (Body × ℕ) × Heap
unfolding translate_coded
translate none h = ((record { code = code_unknown; message = ""; details = none }, 500), h)
translate (some e) h = translate_coded e (as_coded e) h

-- What `WriteJSON(w, err)` sets on the response writer.
pub record Response : Type 0 where
  pub content_type : String
  pub status : ℕ
  pub body : Body

unfoldable pub write_json : Option Error → Heap → Response × Heap
unfolding translate
write_json e h =
    let ((body, status), h') = translate e h in
    (record { content_type = "application/json; charset=utf-8"; status = status; body = body }, h')
