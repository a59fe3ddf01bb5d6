-- ===== src/Tui/TapEvent.antt =====
-- proto/tap/v1/tap.proto: GRPCEvent as the TUI receives it. The getters of the generated code give
-- a message that is absent its zero value.
use grpc_tap.Prelude.{Option, none, some, List, Bytes}
use grpc_tap.Prelude.Int.{ℤ, pos}

-- `duration` and `start_time` are the values of `AsDuration` and `AsTime`, in nanoseconds.
pub record TapEvent : Type 0 where
  pub id : Bytes
  pub method : Bytes
  pub call_type : ℤ
  pub start_time : Option ℤ
  pub duration : Option ℤ
  pub status : ℤ
  pub error : Bytes
  pub protocol : ℤ
  pub request_body : Bytes
  pub response_body : Bytes
  pub request_headers : List (Bytes × Bytes)
  pub response_headers : List (Bytes × Bytes)

-- `GetDuration().AsDuration()`.
abbrev pub as_duration : Option ℤ → ℤ
as_duration none = pos 0
as_duration (some d) = d
