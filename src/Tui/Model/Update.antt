-- ===== src/Tui/Model/Update.antt =====
-- tui/model.go and tui/analytics.go: `Update` and the handlers that it calls. The lines of the
-- inspector, `inspectLines`, are an argument: the scroll handler uses their number.
use grpc_tap.Prelude.{
  ◌+◌, ◌-◌, ◌/◌, min, Option, none, some, List, [], ◌∷◌, ◌++◌, Bytes, codes, true, not, ◌==◌, ◌&&◌,
  length, ltb, if◌then◌else◌, is_empty, eq_bytes,
}
use grpc_tap.Tui.TapEvent.{TapEvent}
use grpc_tap.Tui.Analytics.{next, sort_analytics_rows, analytics_visible_rows}
use grpc_tap.Tui.Model.{
  Model, Msg, Cmd, KeyMsg, ViewMode, view_list, view_inspect, view_analytics, Machine,
  connected_msg, event_msg, replay_result_msg, export_result_msg, clear_status_msg, clear_alert_msg,
  err_msg, key_msg, window_size_msg, other_msg, no_cmd, recv_event, edit_and_resend, nil, found,
  panics, cursor_event, last_row, rebuild, show_alert,
}
use grpc_tap.Tui.Model.Keys.{InspectKey, AnalyticsKey, inspect_key, analytics_key_of}
use grpc_tap.Tui.Model.ListKeys.{leave, LastRune, back_to_list, update_list}

-- `copyBody`, after the clipboard has answered.
unfoldable pub copy_body : Machine → Bytes → Bytes → Model → Model × Cmd
copy_body k body status m = show_alert (if k.copies body then status else codes "Copy failed") m

-- A handler that needs the event under the cursor, and does nothing where there is none. An index
-- out of range would crash the program; `none` stands for that.
abbrev pub at_cursor : (TapEvent → Model → Model × Cmd) → Model → Option (Model × Cmd)
at_cursor f m = elim (cursor_event m) [
  | nil ↦ some (m, no_cmd)
  | found ev ↦ some (f ev m)
  | panics ↦ none
]

unfoldable pub scroll_down : (TapEvent → List Bytes) → TapEvent → Model → Model × Cmd
scroll_down inspect_lines ev m =
    let max_scroll = length (inspect_lines ev) + 2 - m.height in
    (
      if ltb m.inspect_scroll max_scroll
          then record m { inspect_scroll = m.inspect_scroll + 1 }
          else m,
      no_cmd,
    )

-- What `editAndResend` starts for an event: nothing where there is no body or no connection.
unfoldable pub edit : TapEvent → Model → Model × Cmd
edit ev m = (
  m,
  if is_empty ev.request_body then no_cmd else if m.connected then edit_and_resend ev else no_cmd,
)

unfoldable pub copy_request : Machine → TapEvent → Model → Model × Cmd
copy_request k ev m =
    if is_empty ev.request_body
    then (m, no_cmd)
    else copy_body k ev.request_body (codes "Request copied!") m

unfoldable pub copy_response : Machine → TapEvent → Model → Model × Cmd
copy_response k ev m =
    if is_empty ev.response_body
    then (m, no_cmd)
    else copy_body k ev.response_body (codes "Response copied!") m

unfoldable pub on_inspect_key :
    Machine → (TapEvent → List Bytes) → InspectKey → Model → Option (Model × Cmd)
on_inspect_key k lines InspectKey.abort_key m = some (leave m)
on_inspect_key k lines InspectKey.back_key m = some (back_to_list k m, no_cmd)
on_inspect_key k lines InspectKey.edit_key m = at_cursor edit m
on_inspect_key k lines InspectKey.copy_request_key m = at_cursor (copy_request k) m
on_inspect_key k lines InspectKey.copy_response_key m = at_cursor (copy_response k) m
on_inspect_key k lines InspectKey.down_key m = at_cursor (scroll_down lines) m
on_inspect_key k lines InspectKey.up_key m = some (
  if ltb 0 m.inspect_scroll then record m { inspect_scroll = m.inspect_scroll - 1 } else m,
  no_cmd,
)
on_inspect_key k lines InspectKey.other_key m = some (m, no_cmd)

unfoldable pub on_analytics_key : Machine → AnalyticsKey → Model → Model × Cmd
on_analytics_key k AnalyticsKey.abort_key m = leave m
on_analytics_key k AnalyticsKey.back_key m = (back_to_list k m, no_cmd)
on_analytics_key k AnalyticsKey.down_key m = (
  if ltb 0 (length m.analytics_rows) && ltb m.analytics_cursor (length m.analytics_rows - 1)
      then record m { analytics_cursor = m.analytics_cursor + 1 }
      else m,
  no_cmd,
)
on_analytics_key k AnalyticsKey.up_key m = (
  if ltb 0 m.analytics_cursor then record m { analytics_cursor = m.analytics_cursor - 1 } else m,
  no_cmd,
)
on_analytics_key k AnalyticsKey.page_down_key m =
    let half = analytics_visible_rows m.height / 2 in
    (
      record m { analytics_cursor = min (m.analytics_cursor + half) (length m.analytics_rows - 1) },
      no_cmd,
    )
on_analytics_key k AnalyticsKey.page_up_key m =
    let half = analytics_visible_rows m.height / 2 in
    (record m { analytics_cursor = m.analytics_cursor - half }, no_cmd)
on_analytics_key k AnalyticsKey.sort_key m =
    let mode = next m.analytics_sort_mode in
    (
      record m {
        analytics_sort_mode = mode;
        analytics_rows = sort_analytics_rows k.floats k.sort_analytics mode m.analytics_rows;
        analytics_cursor = 0;
      },
      no_cmd,
    )
on_analytics_key k AnalyticsKey.other_key m = (m, no_cmd)

unfoldable pub on_key :
    Machine → LastRune → (TapEvent → List Bytes) → ViewMode → KeyMsg → Model → Option (Model × Cmd)
on_key k last_rune lines view_analytics msg m =
    some (on_analytics_key k (analytics_key_of msg.name) m)
on_key k last_rune lines view_inspect msg m = on_inspect_key k lines (inspect_key msg.name) m
on_key k last_rune lines view_list msg m = some (update_list k last_rune msg m)

-- The list, if it is on the screen, shows an event that was just appended.
unfoldable pub list_event : Machine → ViewMode → Model → Model
list_event k view_list m =
    let rows = rebuild k m in
    record m { display_rows = rows; cursor = if m.follow then last_row rows else m.cursor }
list_event k _ m = m

-- An event arrives: the replayed one is shown in the inspector.
unfoldable pub on_event : Machine → TapEvent → Model → Model
on_event k ev m =
    let m1 : Model = record m { events = m.events ++ (ev ∷ []) } in
    let rows = rebuild k m1 in
    if not (is_empty m.replay_event_id) && eq_bytes ev.id m.replay_event_id
    then record m1 {
      replay_event_id = [];
      display_rows = rows;
      cursor = last_row rows;
      view = view_inspect;
      inspect_scroll = 0;
    }
    else list_event k m.view m1

-- `Update`; `none` is a crash.
unfoldable pub update :
    Machine → LastRune → (TapEvent → List Bytes) → Msg → Model → Option (Model × Cmd)
update k last_rune lines connected_msg m = some (record m { connected = true }, recv_event)
update k last_rune lines (event_msg ev) m = some (on_event k ev m, recv_event)
update k last_rune lines (replay_result_msg id none) m =
    some (record m { replay_event_id = id }, no_cmd)
update k last_rune lines (replay_result_msg id (some e)) m =
    some (record m { err = some e }, no_cmd)
update k last_rune lines (export_result_msg path none) m =
    some (show_alert (codes "wrote: ./" ++ path) m)
update k last_rune lines (export_result_msg path (some e)) m =
    some (show_alert (codes "write error: " ++ e) m)
update k last_rune lines clear_status_msg m = some (record m { inspect_status = [] }, no_cmd)
update k last_rune lines (clear_alert_msg seq) m =
    some (if seq == m.alert_seq then record m { alert_message = [] } else m, no_cmd)
update k last_rune lines (err_msg e) m = some (record m { err = some e }, no_cmd)
update k last_rune lines (key_msg msg) m =
    on_key k last_rune lines m.view msg (record m { alert_message = [] })
update k last_rune lines (window_size_msg w h) m = some (record m { width = w; height = h }, no_cmd)
update k last_rune lines other_msg m = some (m, no_cmd)
