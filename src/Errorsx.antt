-- ===== src/Errorsx.antt =====
-- pkg/errorsx/errorsx.go. The Details maps live in a heap, since `WithDetail` is careful not to
-- write to a map that another error shares: an error holds nil or a reference, and the function that
-- allocates takes the heap and returns the new one.
pub mod Maps
pub mod Laws
use go_ddd_core.Prelude.{ℕ, String, Option, none, some, []}
use go_ddd_core.Prelude.Dict.{insert}
use go_ddd_core.Errors.{Code, Error, Coded, no_cause, cause, as_coded}
use Maps.{Any, Heap, alloc, write}

abbrev pub code_unknown : Code
code_unknown = "unknown"

abbrev pub code_invalid_argument : Code
code_invalid_argument = "invalid_argument"

abbrev pub code_not_found : Code
code_not_found = "not_found"

abbrev pub code_already_exists : Code
code_already_exists = "already_exists"

abbrev pub code_unauthorized : Code
code_unauthorized = "unauthorized"

abbrev pub code_forbidden : Code
code_forbidden = "forbidden"

abbrev pub code_conflict : Code
code_conflict = "conflict"

abbrev pub code_rate_limited : Code
code_rate_limited = "rate_limited"

abbrev pub code_internal : Code
code_internal = "internal"

abbrev pub code_unavailable : Code
code_unavailable = "unavailable"

-- `New(code, msg)`
unfoldable pub new : Code → String → Coded
new c m = record { code = c; message = m; details = none; cause = no_cause }

-- `Wrap(code, msg, cause)`
unfoldable pub wrap : Code → String → Error → Coded
wrap c m e = record { code = c; message = m; details = none; cause = cause e }

-- The new map of `WithDetail`: a clone of the receiver's, or an empty one.
unfoldable pub fresh_details : Option ℕ → Heap → ℕ × Heap
fresh_details none h = alloc [] h
fresh_details (some r) h = alloc (h.cell r) h

-- `e.WithDetail(key, value)`
unfoldable pub with_detail : Coded → String → Any → Heap → Coded × Heap
unfolding fresh_details
with_detail e k v h =
    let (r, h') = fresh_details e.details h in (record e { details = some r }, write r k v h')

-- `CodeOf(err)`, of an error that may be nil.
abbrev pub found_code : Option Coded → Code
found_code none = code_unknown
found_code (some e) = e.code

unfoldable pub code_of : Error → Code
code_of e = found_code (as_coded e)
