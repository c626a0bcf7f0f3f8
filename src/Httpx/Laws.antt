-- ===== src/Httpx/Laws.antt =====
-- What the HTTP mapping guarantees (pkg/errorsx/httpx/mapping.go).
use go_ddd_core.Prelude.{
  ℕ, ◌≤◌, ◌≡◌, refl, String, Option, none, some, arith, str_eq, if◌then◌else◌,
}
use go_ddd_core.Errors.{Error, Coded, RuleViolation, as_coded, as_rule}
use go_ddd_core.Errorsx.{code_unknown, code_invalid_argument, new, with_detail}
use go_ddd_core.Errorsx.Maps.{Heap, Any, text, read}
use go_ddd_core.Errorsx.Laws.{details_of-with_detail}
use go_ddd_core.Httpx.{
  Body, coded_body, status_from_code, translate, translate_coded, translate_rule,
  from_rule_violation, write_json,
}

abbrev pub body_details : Body → Heap → String → Option Any
body_details b h k = elim b.details [ none ↦ none | some r ↦ read h r k ]

-- An error is never reported with a status below 400 or above 503, whatever its code.
status_from_code_range : (c : String) → (400 ≤ status_from_code c) × (status_from_code c ≤ 503)
unfolding status_from_code
status_from_code_range c = ground arith

status_unknown : status_from_code code_unknown ≡ 500
unfolding status_from_code
status_unknown = refl

status_invalid_argument : status_from_code code_invalid_argument ≡ 400
unfolding status_from_code
status_invalid_argument = refl

-- A translation is consistent if its status is the one of the code in its body, an error status.
abbrev IsConsistent : Body × ℕ → Type 0
IsConsistent (b, s) = (s ≡ status_from_code b.code) × (400 ≤ s) × (s ≤ 503)

coded_body-IsConsistent : (e : Coded) → IsConsistent (coded_body e)
coded_body-IsConsistent e =
    (refl, (status_from_code_range e.code).0, (status_from_code_range e.code).1)

translate_rule-IsConsistent :
    (e : Error) (rv : Option RuleViolation) (h : Heap) → IsConsistent (translate_rule e rv h).0
unfolding translate_rule
translate_rule-IsConsistent e none h = ground (arith, status_unknown)
translate_rule-IsConsistent e (some rv) h =
    coded_body-IsConsistent (from_rule_violation (some rv) h).0

translate_coded-IsConsistent :
    (e : Error) (x : Option Coded) (h : Heap) → IsConsistent (translate_coded e x h).0
unfolding translate_coded
translate_coded-IsConsistent e none h = translate_rule-IsConsistent e (as_rule e) h
translate_coded-IsConsistent e (some x) h = coded_body-IsConsistent x

-- The status that is written always belongs to the code in the body and is an error status, for
-- nil, coded, rule and foreign errors alike.
pub write_json_consistent :
    (e : Option Error) (h : Heap)
    → let r = (write_json e h).0 in
      (r.status ≡ status_from_code r.body.code) × (400 ≤ r.status) × (r.status ≤ 503)
unfolding write_json
write_json_consistent none h = ground (arith, status_unknown)
write_json_consistent (some e) h = translate_coded-IsConsistent e (as_coded e) h

-- An error that wraps a rule violation and no coded error is answered with 400, the message of the
-- violation, and details that hold its code under "rule" and nothing else.
translate-rule :
    (e : Error) (rv : RuleViolation) (h : Heap) (j : String)
    → as_coded e ≡ none
    → as_rule e ≡ some rv
    → let ((b, s), h') = translate (some e) h in
      (s ≡ 400)
      × (b.code ≡ code_invalid_argument)
      × (b.message ≡ rv.message)
      × (body_details b h' j ≡ (if str_eq "rule" j then some (text rv.code) else none))
unfolding translate translate_rule from_rule_violation with_detail new
translate-rule e rv h j p q =
    rw (p, translate_coded)
      (rw (q, translate_rule)
        (
          status_invalid_argument,
          refl,
          refl,
          details_of-with_detail (new code_invalid_argument rv.message) "rule" (text rv.code) h j,
        ))
