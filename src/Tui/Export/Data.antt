-- ===== src/Tui/Export/Data.antt =====
-- tui/export.go, buildExportDataFromEvents: what an export holds. float64, sorting, the formats of a
-- time in the local zone and of a float, and strings.ToLower are parameters.
use grpc_tap.Prelude.{
  ℕ, ◌-◌, ◌>>=◌, Option, none, some, List, [], Bytes, Bool, map, length, get_elem?,
}
use grpc_tap.Prelude.Int.{ℤ, pos}
use grpc_tap.Tui.TapEvent.{TapEvent}
use grpc_tap.Tui.Env.{Floats}
use grpc_tap.Tui.Names.{call_type_name, protocol_name}
use grpc_tap.Tui.Rows.{filtered_export_events}
use grpc_tap.Tui.Export.{ExportRow, millis, build_export_analytics_rows}

-- `fixed n` is the verb `%.nf`; `clock` and `clock_millis` are the formats 15:04:05 and 15:04:05.000.
pub record Exporter : Type 1 where
  pub floats : Floats
  pub fixed : ℕ → floats.Float → Bytes
  pub sort_durations : List ℤ → List ℤ
  pub p95_index : ℕ → ℕ
  pub clock : ℤ → Bytes
  pub clock_millis : ℤ → Bytes
  pub to_lower : Bytes → Bytes

pub record ExportCall (F : Type 0) : Type 0 where
  pub time : Bytes
  pub method : Bytes
  pub call_type : Bytes
  pub protocol : Bytes
  pub duration_ms : F
  pub status : ℤ
  pub error : Bytes

pub record ExportData (F : Type 0) : Type 0 where
  pub captured : ℕ
  pub exported : ℕ
  pub search : Bytes
  pub period_start : Bytes
  pub period_end : Bytes
  pub calls : List (ExportCall F)
  pub analytics : List (ExportRow F)

-- `GetStartTime().AsTime()`: the epoch where there is no time.
abbrev pub as_time : Option ℤ → ℤ
as_time none = pos 0
as_time (some time) = time

module _ (x : Exporter) where
  open x use {floats}

  unfoldable pub duration_ms : Option ℤ → floats.Float
  duration_ms none = floats.of_int (pos 0)
  duration_ms (some d) = millis floats d

  unfoldable pub export_call : TapEvent → ExportCall floats.Float
  export_call ev = record {
    time = x.clock_millis (as_time ev.start_time);
    method = ev.method;
    call_type = call_type_name ev.call_type;
    protocol = protocol_name ev.protocol;
    duration_ms = duration_ms ev.duration;
    status = ev.status;
    error = ev.error;
  }

  -- The clock of the event at an index, or no text where there is none.
  unfoldable pub clock_at : List TapEvent → ℕ → Bytes
  clock_at evs i = elim (get_elem? evs i) [ none ↦ [] | some ev ↦ x.clock (as_time ev.start_time) ]

  -- `buildExportDataFromEvents`; none where an index is out of range.
  unfoldable pub build_export_data : List TapEvent → Bytes → Bool → Option (ExportData floats.Float)
  build_export_data all_events query filter_errors = do
    let evs = filtered_export_events x.to_lower all_events query filter_errors
    rows ← build_export_analytics_rows floats x.sort_durations x.p95_index evs
    some (record {
      captured = length all_events;
      exported = length evs;
      search = query;
      period_start = clock_at evs 0;
      period_end = clock_at evs (length evs - 1);
      calls = map export_call evs;
      analytics = rows;
    })
