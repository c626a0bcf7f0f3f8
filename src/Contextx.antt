-- ===== src/Contextx.antt =====
-- pkg/contextx/contextx.go. A context is the list of the values set on it, the latest first, as
-- context.WithValue builds it; `background` has none. Keys are compared by value within this package's
-- own key type; a value under another package's key is an `other` entry, with that key's number.
pub mod Laws
use go_ddd_core.Prelude.{
  ℕ, String, Bool, false, Option, none, some, List, [], ◌∷◌, ◌==◌, if◌then◌else◌,
}

-- `ctxKey`, by its constants, and the keys of other packages.
pub data Key : Type 0 where
  key_trace_id : Key
  key_request_id : Key
  key_correlation_id : Key
  key_causation_id : Key
  key_tenant_id : Key
  key_user_id : Key
  other : ℕ → Key

-- The number of `ctxKey` (by iota); none for another package's key.
abbrev pub iota : Key → Option ℕ
iota key_trace_id = some 0
iota key_request_id = some 1
iota key_correlation_id = some 2
iota key_causation_id = some 3
iota key_tenant_id = some 4
iota key_user_id = some 5
iota (other n) = none

abbrev pub other_number : Key → ℕ
other_number (other n) = n
other_number _ = 0

abbrev pub same_number : Option ℕ → Option ℕ → Bool
same_number (some m) (some n) = m == n
same_number _ _ = false

abbrev pub key_eq : Key → Key → Bool
key_eq (other m) (other n) = m == n
key_eq k j = same_number (iota k) (iota j)

abbrev pub Context : Type 0
Context = List (Key × String)

abbrev pub background : Context
background = []

-- `context.WithValue(ctx, k, v)` and `ctx.Value(k)`, of the standard library.
unfoldable pub with_value : Key → String → Context → Context
with_value k v ctx = (k, v) ∷ ctx

unfoldable pub value : Key → Context → Option String
value k [] = none
value k ((j, v) ∷ ctx) = if key_eq k j then some v else value k ctx

abbrev pub or_empty : Option String → String
or_empty none = ""
or_empty (some v) = v

-- `stringValue(ctx, k)`
unfoldable pub string_value : Key → Context → String
string_value k ctx = or_empty (value k ctx)

unfoldable pub with_trace_id : String → Context → Context
with_trace_id i ctx = with_value key_trace_id i ctx

unfoldable pub trace_id : Context → String
trace_id ctx = string_value key_trace_id ctx

unfoldable pub with_request_id : String → Context → Context
with_request_id i ctx = with_value key_request_id i ctx

unfoldable pub request_id : Context → String
request_id ctx = string_value key_request_id ctx

unfoldable pub with_correlation_id : String → Context → Context
with_correlation_id i ctx = with_value key_correlation_id i ctx

unfoldable pub correlation_id : Context → String
correlation_id ctx = string_value key_correlation_id ctx

unfoldable pub with_causation_id : String → Context → Context
with_causation_id i ctx = with_value key_causation_id i ctx

unfoldable pub causation_id : Context → String
causation_id ctx = string_value key_causation_id ctx

unfoldable pub with_tenant_id : String → Context → Context
with_tenant_id i ctx = with_value key_tenant_id i ctx

unfoldable pub tenant_id : Context → String
tenant_id ctx = string_value key_tenant_id ctx

unfoldable pub with_user_id : String → Context → Context
with_user_id i ctx = with_value key_user_id i ctx

unfoldable pub user_id : Context → String
user_id ctx = string_value key_user_id ctx
