-- ===== src/Eventbus/Outbox.antt =====
-- The records and the names of headers of eventbus/outbox.go and eventbus/codec.go; both files have
-- interfaces besides. Times are in nanoseconds.
use go_ddd_core.Prelude.{ℕ, String, List}
use go_ddd_core.Prelude.Int.{ℤ}
use go_ddd_core.Prelude.Dict.{Dict}

pub record OutboxRecord : Type 0 where
  pub id : String
  pub event_id : String
  pub topic : String
  pub event_name : String
  pub aggregate_id : String
  pub aggregate_type : String
  pub payload : List ℕ
  pub headers : Dict String
  pub created_at : ℕ
  pub available_at : ℕ
  pub attempts : ℤ

abbrev pub header_event_id : String
header_event_id = "event_id"

abbrev pub header_event_name : String
header_event_name = "event_name"

abbrev pub header_aggregate_id : String
header_aggregate_id = "aggregate_id"

abbrev pub header_aggregate_type : String
header_aggregate_type = "aggregate_type"

abbrev pub header_occurred_at : String
header_occurred_at = "occurred_at"

abbrev pub header_event_version : String
header_event_version = "event_version"

abbrev pub header_trace_id : String
header_trace_id = "trace_id"

abbrev pub header_causation_id : String
header_causation_id = "causation_id"

abbrev pub header_correlation_id : String
header_correlation_id = "correlation_id"
