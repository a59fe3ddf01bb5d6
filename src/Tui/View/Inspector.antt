-- ===== src/Tui/View/Inspector.antt =====
-- tui/model.go, inspectLines and renderInspector: an event on the full screen.
use grpc_tap.Prelude.{
  ℕ, ◌+◌, ◌-◌, max, min, Option, none, some, List, [], ◌∷◌, ◌++◌, Bytes, codes, ◌&&◌, leb, ltb,
  if◌then◌else◌, length, take, drop, is_empty, ◌>>=◌,
}
use grpc_tap.Proxy.Wire.{ProtoWire}
use grpc_tap.Tui.TapEvent.{TapEvent}
use grpc_tap.Tui.Names.{protocol_name}
use grpc_tap.Tui.Body.{format_body}
use grpc_tap.Tui.Model.{Model, nil, found, panics, cursor_event}
use grpc_tap.Tui.Format.{
  Terminal, dashes, join_lines, status_string, format_duration, format_time, format_headers,
}
use grpc_tap.Tui.View.{inner_width, helped_box}

-- `lines[start:end]`; none where that panics.
unfoldable pub slice : ℕ → ℕ → List Bytes → Option (List Bytes)
slice start end lines =
    if leb start end && leb end (length lines)
    then some (take (end - start) (drop start lines))
    else none

-- `lines[m.inspectScroll:end]`, after the offset was brought into range.
unfoldable pub visible_lines : ℕ → ℕ → List Bytes → Option (List Bytes)
visible_lines scroll rows lines =
    let max_scroll = length lines - rows in
    let start = if ltb max_scroll scroll then max_scroll else scroll in
    slice start (min (start + rows) (length lines)) lines

-- "── Request Headers ──" and the like, after an empty line.
abbrev pub heading : Bytes → List Bytes
heading name = [] ∷ ((dashes 2 ++ (codes " " ++ (name ++ (codes " " ++ dashes 2)))) ∷ [])

unfoldable pub inspect_status_title : Bytes → Bytes
inspect_status_title status =
    codes " Inspector "
    ++ (if is_empty status then [] else 0xe2 ∷ 0x80 ∷ 0x94 ∷ 0x20 ∷ (status ++ codes " "))

abbrev pub inspect_help : Bytes
inspect_help = codes " q: back  j/k: scroll  c/C: copy req/resp  e: edit & resend "

-- `visibleRows` of `renderInspector`.
abbrev pub inspect_rows : Model → ℕ
inspect_rows m = max (m.height - 2) 3

module _ (t : Terminal) where
  unfoldable pub headers_lines : Bytes → List (Bytes × Bytes) → List Bytes
  headers_lines name [] = []
  headers_lines name (h ∷ hs) = heading name ++ format_headers t (h ∷ hs)

  unfoldable pub summary_lines : TapEvent → List Bytes
  summary_lines ev =
      (codes "Method:   " ++ ev.method)
      ∷ ((codes "Protocol: " ++ protocol_name ev.protocol)
          ∷ ((codes "Status:   " ++ status_string ev.status)
              ∷ ((codes "Duration: " ++ format_duration t ev.duration)
                  ∷ ((codes "Time:     " ++ format_time t ev.start_time)
                      ∷ ((codes "ID:       " ++ ev.id)
                          ∷ (if is_empty ev.error
                              then []
                              else (codes "Error:    " ++ ev.error) ∷ []))))))

  module _ (w : ProtoWire) where
    unfoldable pub body_section : Bytes → Bytes → Option (List Bytes)
    body_section name [] = some []
    body_section name (b ∷ body) = do
      lines ← format_body w t.verbs (b ∷ body)
      some (heading name ++ lines)

    unfoldable pub inspect_lines : TapEvent → Option (List Bytes)
    inspect_lines ev = do
      request ← body_section (codes "Request Body") ev.request_body
      response ← body_section (codes "Response Body") ev.response_body
      some (
          summary_lines ev
          ++ (headers_lines (codes "Request Headers") ev.request_headers
              ++ (headers_lines (codes "Response Headers") ev.response_headers
                  ++ (request ++ response))))

    unfoldable pub render_lines : Model → List Bytes → Option Bytes
    render_lines m lines = do
      visible ← visible_lines m.inspect_scroll (inspect_rows m) lines
      some (
          helped_box t (inner_width m) (inspect_status_title m.inspect_status) inspect_help
            (join_lines visible))

    unfoldable pub render_inspector : Model → Option Bytes
    render_inspector m = elim (cursor_event m) [
      | nil ↦ some []
      | found ev ↦ (inspect_lines ev >>= render_lines m)
      | panics ↦ none
    ]
