-- ===== src/Tests/Core.antt =====
-- Errors, aggregates, replay, specifications and context values.
use go_ddd_core.Prelude.{
  ℕ, ◌<◌, ◌≤◌, ◌+◌, String, true, ◌≡◌, refl, arith, Option, none, some, List, [], ◌∷◌, ◌==◌, str_eq,
  if◌then◌else◌,
}
use go_ddd_core.Prelude.Int.{pos, ◌+ℤ◌}
use go_ddd_core.Prelude.Int64.{add64, wrap}
use go_ddd_core.Errors.{Error, plain, wrapped, coded, Coded, no_cause}
use go_ddd_core.Errorsx.{with_detail, code_of}
use go_ddd_core.Errorsx.Maps.{text, Heap}
use go_ddd_core.Errorsx.Laws.{
  details_of, with_detail_isolated, chain, first_coded, code_of-first_coded,
}
use go_ddd_core.Contextx.Laws.{Setter, trace, tenant, ids, set_all, assign_all, ids-set_all}
use go_ddd_core.Httpx.{write_json}
use go_ddd_core.Ports.Auth.{
  err_token_missing, err_token_invalid, err_token_expired, err_forbidden,
  err_invalid_authorization_request,
}
use go_ddd_core.Ports.Auth.Access.{wraps, sentinel_response, write_json-wraps}
use go_ddd_core.Domain.{
  domain_events, clear_events, new_base_aggregate, new_base_entity, record_event, increment_version,
}
use go_ddd_core.Eventsourcing.{
  BaseEsAggregate, new_base_es_aggregate, raise, load_history, should_snapshot,
}
use go_ddd_core.Eventsourcing.Replay.{raise_all, load_history-raise_all}
use go_ddd_core.Eventsourcing.Snapshot.{should_snapshot_window}

-- A counter that refuses a zero.
abbrev count : ℕ → ℕ → ℕ × Option Error
count e s = if e == 0 then (s, some (plain "zero")) else (s + e, none)

abbrev counter : BaseEsAggregate String ℕ ℕ
counter = new_base_es_aggregate "c" 0

abbrev counted : BaseEsAggregate String ℕ ℕ
counted = record {
  base = record { entity = record { id = "c" }; events = 2 ∷ 5 ∷ []; version = pos 2 };
  state = 7;
}

counted_run : raise_all count (2 ∷ 5 ∷ []) counter ≡ (counted, none)
unfolding raise_all raise new_base_es_aggregate increment_version record_event new_base_aggregate
    new_base_entity add64 wrap ◌+ℤ◌
counted_run = refl

load_history-raise_all_example :
    load_history count (domain_events counted.base) counter
    ≡ (record counted { base = clear_events counted.base }, none)
load_history-raise_all_example = load_history-raise_all count "c" 0 (2 ∷ 5 ∷ []) counted counted_run

abbrev loaded : BaseEsAggregate String ℕ ℕ
loaded = record {
  base = record { entity = record { id = "c" }; events = []; version = pos 1 };
  state = 2;
}

-- One map in the heap, which the error holds.
abbrev one_map : Heap
one_map = record { next = 1; cell = λ r. ("id", text "7") ∷ [] }

abbrev assignments : List (Setter × String)
assignments = (trace, "t1") ∷ (tenant, "acme") ∷ (trace, "t2") ∷ []

ids-set_all_example : ids (set_all assignments []) ≡ assign_all assignments (ids [])
ids-set_all_example = ids-set_all assignments []

write_json-wraps_example :
    (write_json (some (wraps ("get: verify" ∷ "verify" ∷ []) err_token_missing)) one_map
      ≡ (sentinel_response 401 "unauthorized" "auth: token missing", one_map))
    × (write_json (some (wraps ("get: verify" ∷ "verify" ∷ []) err_token_invalid)) one_map
        ≡ (sentinel_response 401 "unauthorized" "auth: token invalid", one_map))
    × (write_json (some (wraps ("get: verify" ∷ "verify" ∷ []) err_token_expired)) one_map
        ≡ (sentinel_response 401 "unauthorized" "auth: token expired", one_map))
    × (write_json (some (wraps ("get: verify" ∷ "verify" ∷ []) err_forbidden)) one_map
        ≡ (sentinel_response 403 "forbidden" "auth: forbidden", one_map))
    × (write_json
          (some (wraps ("get: verify" ∷ "verify" ∷ []) err_invalid_authorization_request))
          one_map
        ≡ (sentinel_response 400 "invalid_argument" "auth: invalid authorization request", one_map))
write_json-wraps_example = write_json-wraps ("get: verify" ∷ "verify" ∷ []) one_map

should_snapshot_window_example :
    (u : ℕ) × (7 ≤ u) × (u < 7 + 5) × (should_snapshot (pos 5) (pos u) ≡ true)
should_snapshot_window_example = should_snapshot_window 5 7 (omega arith)

abbrev missing : Coded
missing = record { code = "not_found"; message = "m"; details = some 0; cause = no_cause }

with_detail_isolated_example :
    let (e', h') = with_detail missing "kind" (text "order") one_map in
    (e'.code ≡ "not_found")
    × (e'.message ≡ "m")
    × (e'.cause ≡ no_cause)
    × (details_of e' h' "id"
        ≡ (if str_eq "kind" "id" then some (text "order") else details_of missing one_map "id"))
    × (h'.cell 0 ≡ one_map.cell 0)
with_detail_isolated_example =
    with_detail_isolated missing "kind" (text "order") one_map "id" 0 (omega arith)

abbrev nested : Error
nested = wrapped "outer" (coded "conflict" "m" none no_cause)

code_of-first_coded_example :
    code_of nested ≡ elim (first_coded (chain nested)) [ none ↦ "unknown" | some c ↦ c.code ]
code_of-first_coded_example = code_of-first_coded nested
