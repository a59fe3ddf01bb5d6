-- ===== src/Tui/Model.antt =====
-- tui/model.go: the Bubble Tea model. `Update` returns the new model and a command for the runtime.
-- Cursors, scroll offsets and window sizes are ints that never fall below 0: where the source
-- subtracts, it takes the maximum with 0 or tests first, which is subtraction on ℕ.
pub mod Keys
pub mod ListKeys
pub mod Update
pub mod Invariant
pub mod Safety
pub mod Messages
use grpc_tap.Prelude.{
  ℕ, ◌+◌, ◌-◌, ◌/◌, max, min, Option, none, some, List, [], ◌∷◌, Bytes, Bool, true, false, length,
  get_elem?, ltb, if◌then◌else◌,
}
use grpc_tap.Prelude.Int.{ℤ, pos}
use grpc_tap.Tui.TapEvent.{TapEvent}
use grpc_tap.Tui.Env.{Floats}
use grpc_tap.Tui.Rows.{SortMode, sort_chronological, rebuild_display_rows}
use grpc_tap.Tui.Analytics.{
  AnalyticsRow, Agg, AnalyticsSortMode, sort_total_duration, build_analytics_rows,
  sort_analytics_rows,
}

pub data ViewMode : Type 0 where
  view_list view_inspect view_analytics : ViewMode

pub data ExportFormat : Type 0 where
  export_json export_markdown : ExportFormat

-- `connected`: `conn`, `client` and `stream` are set, which happens in one place only.
pub record Model : Type 0 where
  pub target : Bytes
  pub connected : Bool
  pub events : List TapEvent
  pub cursor : ℕ
  pub follow : Bool
  pub width : ℕ
  pub height : ℕ
  pub err : Option Bytes
  pub view : ViewMode
  pub search_mode : Bool
  pub search_query : Bytes
  pub sort_mode : SortMode
  pub filter_errors : Bool
  pub display_rows : List ℕ
  pub inspect_scroll : ℕ
  pub inspect_status : Bytes
  pub replay_event_id : Bytes
  pub write_mode : Bool
  pub alert_message : Bytes
  pub alert_seq : ℕ
  pub analytics_rows : List AnalyticsRow
  pub analytics_cursor : ℕ
  pub analytics_sort_mode : AnalyticsSortMode

unfoldable pub new : Bytes → Model
new target = record {
  target = target;
  connected = false;
  events = [];
  cursor = 0;
  follow = false;
  width = 0;
  height = 0;
  err = none;
  view = view_list;
  search_mode = false;
  search_query = [];
  sort_mode = sort_chronological;
  filter_errors = false;
  display_rows = [];
  inspect_scroll = 0;
  inspect_status = [];
  replay_event_id = [];
  write_mode = false;
  alert_message = [];
  alert_seq = 0;
  analytics_rows = [];
  analytics_cursor = 0;
  analytics_sort_mode = sort_total_duration;
}

-- `tea.KeyMsg`: its `String()`, and `string(msg.Runes)`.
pub record KeyMsg : Type 0 where
  pub name : Bytes
  pub runes : Bytes

-- An `error` is its text.
pub data Msg : Type 0 where
  connected_msg : Msg
  event_msg : TapEvent → Msg
  replay_result_msg : Bytes → Option Bytes → Msg
  export_result_msg : Bytes → Option Bytes → Msg
  clear_status_msg : Msg
  clear_alert_msg : ℕ → Msg
  err_msg : Bytes → Msg
  key_msg : KeyMsg → Msg
  window_size_msg : ℕ → ℕ → Msg
  other_msg : Msg

-- `quit` says whether the connection was closed first. `export` takes a copy of what is exported.
pub data Cmd : Type 0 where
  no_cmd : Cmd
  recv_event : Cmd
  quit : Bool → Cmd
  clear_alert_after : ℕ → Cmd
  export : List TapEvent → Bytes → Bool → ExportFormat → Cmd
  edit_and_resend : TapEvent → Cmd

-- The machine and the libraries: `strings.ToLower`, `sort.Slice` at the two types it is used at,
-- the order of a range loop over the groups, float64, and whether the text of a body could be
-- copied to the clipboard.
pub record Machine : Type 1 where
  pub to_lower : Bytes → Bytes
  pub sort_rows : (ℕ → ℕ → Bool) → List ℕ → List ℕ
  pub sort_analytics : (AnalyticsRow → AnalyticsRow → Bool) → List AnalyticsRow → List AnalyticsRow
  pub range_order : List (Bytes × Agg) → List (Bytes × Agg)
  pub floats : Floats
  pub copies : Bytes → Bool

unfoldable pub list_height : Model → ℕ
list_height m = max (m.height - 8) 3

-- What `cursorEvent` gives: nil, an event, or the panic of an index out of range.
pub data Found : Type 0 where
  nil : Found
  found : TapEvent → Found
  panics : Found

unfoldable pub cursor_event : Model → Found
cursor_event m = elim (get_elem? m.display_rows m.cursor) [
  | none ↦ nil
  | some row ↦ elim (get_elem? m.events row) [ none ↦ panics | some ev ↦ found ev ]
]

-- `max(len(m.displayRows)-1, 0)`.
abbrev pub last_row : List ℕ → ℕ
last_row rows = length rows - 1

module _ (k : Machine) where
  unfoldable pub rebuild : Model → List ℕ
  rebuild m =
      rebuild_display_rows k.to_lower k.sort_rows m.events m.search_query m.filter_errors
        m.sort_mode

  -- The two lines that follow a change of the filters.
  unfoldable pub refilter : Model → Model
  refilter m =
      let rows = rebuild m in
      record m { display_rows = rows; cursor = min m.cursor (last_row rows) }

  unfoldable pub analyse : Model → Model
  analyse m = record m {
    view = view_analytics;
    analytics_rows =
        sort_analytics_rows k.floats k.sort_analytics m.analytics_sort_mode
          (build_analytics_rows k.range_order m.events);
    analytics_cursor = 0;
  }

-- `showAlert`.
unfoldable pub show_alert : Bytes → Model → Model × Cmd
show_alert text m =
    let seq = m.alert_seq + 1 in
    (record m { alert_seq = seq; alert_message = text }, clear_alert_after seq)
