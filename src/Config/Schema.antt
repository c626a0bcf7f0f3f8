-- ===== src/Config/Schema.antt =====
-- config/schema.go. Durations are in nanoseconds; `F` stands for float64.
use go_ddd_core.Prelude.{String, Bool, List}
use go_ddd_core.Prelude.Int.{ℤ}
use go_ddd_core.Prelude.Dict.{Dict}

pub record App : Type 0 where
  pub name : String
  pub env : String
  pub version : String
  pub instance_id : String
  pub description : String

pub record Logger : Type 0 where
  pub driver : String
  pub level : String
  pub format : String

pub record Observability (F : Type 0) : Type 0 where
  pub driver : String
  pub endpoint : String
  pub insecure : Bool
  pub sample_ratio : F
  pub service_name : String
  pub metric_prefix : String

pub record Http : Type 0 where
  pub driver : String
  pub addr : String
  pub read_timeout : ℤ
  pub write_timeout : ℤ
  pub shutdown_timeout : ℤ

pub record Grpc : Type 0 where
  pub driver : String
  pub addr : String
  pub shutdown_timeout : ℤ

pub record Graphql : Type 0 where
  pub driver : String
  pub path : String
  pub playground : Bool

pub record Database : Type 0 where
  pub driver : String
  pub dsn : String
  pub max_open_conns : ℤ
  pub max_idle_conns : ℤ
  pub conn_max_lifetime : ℤ

pub record Cache : Type 0 where
  pub driver : String
  pub endpoint : String
  pub namespace : String
  pub ttl : ℤ

pub record Messaging : Type 0 where
  pub driver : String
  pub brokers : List String
  pub consumer_group : String
  pub options : Dict String

pub record Storage : Type 0 where
  pub driver : String
  pub endpoint : String
  pub bucket : String
  pub region : String

pub record Root (F : Type 0) : Type 0 where
  pub app : App
  pub logger : Logger
  pub observability : Observability F
  pub http : Http
  pub grpc : Grpc
  pub graphql : Graphql
  pub database : Database
  pub cache : Cache
  pub messaging : Messaging
  pub storage : Storage
