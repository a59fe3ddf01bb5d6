-- ===== src/Tui/View/Rows.antt =====
-- tui/model.go, renderListView and renderPreview, and tui/analytics.go, renderAnalytics: the rows
-- of the two lists and the boxes around them.
use grpc_tap.Prelude.{
  ℕ, ◌-◌, max, Option, none, some, List, [], ◌∷◌, ◌++◌, Bytes, codes, Bool, true, false, ◌==◌, ltb,
  if◌then◌else◌, length, get_elem?, is_empty, ◌>>=◌,
}
use grpc_tap.Prelude.Decimal.{print_nat}
use grpc_tap.Tui.TapEvent.{TapEvent}
use grpc_tap.Tui.Names.{protocol_name}
use grpc_tap.Tui.Rows.{sort_chronological, sort_duration}
use grpc_tap.Tui.Analytics.{AnalyticsRow, sort_mode_string, error_rate, analytics_visible_rows}
use grpc_tap.Tui.Model.{Model, nil, found, panics, cursor_event, list_height}
use grpc_tap.Tui.Format.{
  Terminal, bold, color, join_lines, status_string, status_style, format_duration_value,
  format_duration, format_time, truncate, pad_right, pad_left, left_aligned, right_aligned,
}
use grpc_tap.Tui.View.{
  inner_width, window_start, window_end, collect, event_at, marker, titled_box, helped_box,
}

unfoldable pub list_title : Model → Bytes
list_title m =
    let events = print_nat (length m.events) ++ codes " events) " in
    let counts =
      if is_empty m.search_query
      then events
      else print_nat (length m.display_rows) ++ (codes "/" ++ events) in
    let errors = if m.filter_errors then codes "[errors] " else [] in
    let slow : Bytes = elim m.sort_mode [
      | sort_duration ↦ codes "[slow] "
      | sort_chronological ↦ []
    ] in
    codes " grpc-tap (" ++ (counts ++ (errors ++ slow))

-- `colMethod` of the two lists: what the other columns, 4 + 10 + 10 + 10 + 13 + 4 or
-- 2 + 7 + 8 + 10 + 10 + 4, leave.
abbrev pub list_method_width : Model → ℕ
list_method_width m = max (inner_width m - 51) 10

abbrev pub analytics_method_width : Model → ℕ
analytics_method_width m = max (inner_width m - 41) 10

-- `dataRows` of the two lists.
abbrev pub list_data_rows : Model → ℕ
list_data_rows m = max (list_height m - 1) 1

abbrev pub analytics_data_rows : Model → ℕ
analytics_data_rows m = max (analytics_visible_rows m.height - 1) 1

unfoldable pub footer : Model → Bytes
footer m =
    if m.write_mode
    then codes "  write: [j]son [m]arkdown"
    else if m.search_mode
    then codes "  / " ++ (m.search_query ++ (0xe2 ∷ 0x96 ∷ 0x88 ∷ []))
    else codes
        "  q: quit  j/k: navigate  enter: inspect  /: search  s: sort  e: errors  a: analytics  w: write"
      ++ ((if is_empty m.search_query then [] else codes "  esc: clear filter")
          ++ elim m.sort_mode [
            | sort_duration ↦ codes "  [sorted: duration]"
            | sort_chronological ↦ []
          ])

module _ (t : Terminal) where
  unfoldable pub list_header : ℕ → Bytes
  list_header col_method =
      codes "    "
      ++ (left_aligned t 10 (codes "Proto")
          ++ (codes " "
              ++ (left_aligned t col_method (codes "Method")
                  ++ (codes " "
                      ++ (left_aligned t 10 (codes "Status")
                          ++ (codes " "
                              ++ (right_aligned t 10 (codes "Duration")
                                  ++ (codes " " ++ right_aligned t 13 (codes "Time")))))))))

  -- A row of the list, for the event under the cursor and for the others.
  unfoldable pub list_row : ℕ → Bool → TapEvent → Bytes
  list_row col_method true ev =
      t.style bold (marker true)
      ++ (codes "  "
          ++ (pad_right t (t.style bold (protocol_name ev.protocol)) 10
              ++ (codes " "
                  ++ (pad_right t (t.style bold (truncate t ev.method col_method)) col_method
                      ++ (codes " "
                          ++ (pad_right t
                                (t.style (status_style true ev.status) (status_string ev.status)) 10
                              ++ (codes " "
                                  ++ (pad_left t (t.style bold (format_duration t ev.duration)) 10
                                      ++ (codes " "
                                          ++ pad_left t (t.style bold (format_time t ev.start_time))
                                              13)))))))))
  list_row col_method false ev =
      marker false
      ++ (codes "  "
          ++ (left_aligned t 10 (protocol_name ev.protocol)
              ++ (codes " "
                  ++ (left_aligned t col_method (truncate t ev.method col_method)
                      ++ (codes " "
                          ++ (pad_right t
                                (t.style (status_style false ev.status) (status_string ev.status))
                                10
                              ++ (codes " "
                                  ++ (right_aligned t 10 (format_duration t ev.duration)
                                      ++ (codes " "
                                          ++ right_aligned t 13
                                              (format_time t ev.start_time))))))))))

  -- A round of the loop over the rows.
  unfoldable pub draw_event : Model → ℕ → Option Bytes
  draw_event m i = do ev ← event_at m i; some (list_row (list_method_width m) (i == m.cursor) ev)

  -- The rows that `renderListView` draws.
  unfoldable pub list_rows : Model → Option (List Bytes)
  list_rows m =
      let n = length m.display_rows in
      let start = window_start n m.cursor (list_data_rows m) in
      collect (draw_event m) (window_end n m.cursor (list_data_rows m) - start) start

  unfoldable pub preview_lines : TapEvent → List Bytes
  preview_lines ev =
      (codes "Method:   " ++ ev.method)
      ∷ ((codes "Protocol: " ++ protocol_name ev.protocol)
          ∷ ((codes "Status:   " ++ status_string ev.status)
              ∷ ((codes "Duration: " ++ format_duration t ev.duration)
                  ∷ (if is_empty ev.error then [] else (codes "Error:    " ++ ev.error) ∷ []))))

  unfoldable pub render_preview : Model → Option Bytes
  render_preview m = elim (cursor_event m) [
    | nil ↦ some []
    | found ev ↦ some (t.frame (inner_width m) (join_lines (preview_lines ev)))
    | panics ↦ none
  ]

  unfoldable pub render_list_view : Model → Option Bytes
  render_list_view m = do
    rows ← list_rows m
    preview ← render_preview m
    some (
        join_lines (
          titled_box t (inner_width m) (list_title m)
            (join_lines (t.style bold (list_header (list_method_width m)) ∷ rows))
          ∷ (preview ∷ (footer m ∷ []))))

  unfoldable pub analytics_header : Bytes
  analytics_header =
      codes "  "
      ++ (right_aligned t 7 (codes "Count")
          ++ (codes " "
              ++ (right_aligned t 8 (codes "Errors")
                  ++ (codes " "
                      ++ (right_aligned t 10 (codes "Avg")
                          ++ (codes " "
                              ++ (right_aligned t 10 (codes "Total") ++ codes "  Method")))))))

  unfoldable pub errors_text : AnalyticsRow → Bytes
  errors_text r =
      if ltb 0 r.errors
      then t.style (color 1)
          (print_nat r.errors ++ (codes "(" ++ (t.fixed 0 (error_rate t.floats r) ++ codes "%)")))
      else print_nat r.errors

  unfoldable pub analytics_row : ℕ → Bool → AnalyticsRow → Bytes
  analytics_row col_method is_cursor r =
      let row =
        marker is_cursor
        ++ (right_aligned t 7 (print_nat r.count)
            ++ (codes " "
                ++ (pad_left t (errors_text r) 8
                    ++ (codes " "
                        ++ (pad_left t (format_duration_value t r.avg_duration) 10
                            ++ (codes " "
                                ++ (pad_left t (format_duration_value t r.total_duration) 10
                                    ++ (codes "  " ++ truncate t r.method col_method)))))))) in
      if is_cursor then t.style bold row else row

  unfoldable pub draw_analytics : Model → ℕ → Option Bytes
  draw_analytics m i = do
    r ← get_elem? m.analytics_rows i
    some (analytics_row (analytics_method_width m) (i == m.analytics_cursor) r)

  -- The rows that `renderAnalytics` draws.
  unfoldable pub analytics_lines : Model → Option (List Bytes)
  analytics_lines m =
      let n = length m.analytics_rows in
      let start = window_start n m.analytics_cursor (analytics_data_rows m) in
      collect (draw_analytics m) (window_end n m.analytics_cursor (analytics_data_rows m) - start)
        start

  unfoldable pub analytics_title : Model → Bytes
  analytics_title m =
      codes " Analytics ("
      ++ (print_nat (length m.analytics_rows)
          ++ (codes " methods) [sort: " ++ (sort_mode_string m.analytics_sort_mode ++ codes "] ")))

  unfoldable pub render_analytics : Model → Option Bytes
  render_analytics m = do
    rows ← analytics_lines m
    some (
        helped_box t (inner_width m) (analytics_title m) (codes " q: back  j/k: scroll  s: sort ")
          (join_lines (t.style bold analytics_header ∷ rows)))
