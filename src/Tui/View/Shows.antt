-- ===== src/Tui/View/Shows.antt =====
-- tui/model.go and tui/analytics.go: whether View indexes and slices in range.
use grpc_tap.Prelude.{
  ℕ, ◌-◌, ◌≤◌, ◌<◌, ◌≡◌, refl, inl, inr, Option, none, some, List, [], ◌∷◌, Bytes, codes, ◌==◌,
  length, get_elem?-some, arith, Bool-cases, take, drop,
}
use grpc_tap.Proxy.Wire.{ProtoWire, Consumes}
use grpc_tap.Tui.TapEvent.{TapEvent}
use grpc_tap.Tui.Body.{format_body}
use grpc_tap.Tui.Body.Shape.{decode_proto_wire-is_message}
use grpc_tap.Tui.Model.{Model, new, Machine, Msg, ViewMode, view_list, view_inspect, view_analytics}
use grpc_tap.Tui.Model.ListKeys.{LastRune}
use grpc_tap.Tui.Model.Invariant.{IsMachine, Inv}
use grpc_tap.Tui.Model.Invariant.Keys.{cursor_event_lem}
use grpc_tap.Tui.Model.Safety.{update_all, update_all-Inv, new-Inv}
use grpc_tap.Tui.Format.{Terminal}
use grpc_tap.Tui.View.Rows.{
  list_data_rows, analytics_data_rows, draw_event, list_rows, render_preview, render_list_view,
  draw_analytics, analytics_lines, render_analytics,
}
use grpc_tap.Tui.View.Inspector.{
  slice, visible_lines, body_section, inspect_lines, inspect_rows, render_lines, render_inspector,
}
use grpc_tap.Tui.View.Screen.{render, view_events, view_error, view}
use grpc_tap.Tui.View.Window.{IsSome, rows-IsSome}
use grpc_tap.Tui.View.Cursor.{draw_event-IsSome}

module _ (t : Terminal) where
  draw_analytics-IsSome :
      (m : Model) (j : ℕ) → j < length m.analytics_rows → IsSome (draw_analytics t m j)
  unfolding draw_analytics
  draw_analytics-IsSome m j h = let (r, e) = get_elem?-some m.analytics_rows j h in rw e (_, refl)

  slice-IsSome :
      (start end : ℕ) (ls : List Bytes)
      → start ≤ end
      → end ≤ length ls
      → IsSome (slice start end ls)
  unfolding slice
  slice-IsSome start end ls h l = (take (end - start) (drop start ls), ground arith)

  visible_lines-IsSome : (scroll rows : ℕ) (ls : List Bytes) → IsSome (visible_lines scroll rows ls)
  unfolding visible_lines
  visible_lines-IsSome scroll rows ls = slice-IsSome _ _ ls (ground arith) (omega arith)

  module _ (w : ProtoWire) (takes : Consumes w) where
    format_body-IsSome : (s : Bytes) → IsSome (format_body w t.verbs s)
    unfolding format_body
    format_body-IsSome s =
        let (d, ls, e, el, h) = decode_proto_wire-is_message w t.verbs takes s [] in
        rw (format_body, el) (_, refl)

    body_section-IsSome : (name s : Bytes) → IsSome (body_section t w name s)
    unfolding body_section
    body_section-IsSome name [] = (_, refl)
    body_section-IsSome name (b ∷ s) = let (ls, e) = format_body-IsSome (b ∷ s) in rw e (_, refl)

    inspect_lines-IsSome : (ev : TapEvent) → IsSome (inspect_lines t w ev)
    unfolding inspect_lines
    inspect_lines-IsSome ev =
        let (ls, e) = body_section-IsSome (codes "Request Body") ev.request_body in
        let (ls', e') = body_section-IsSome (codes "Response Body") ev.response_body in
        rw (e, e') (_, refl)

    render_lines-IsSome : (m : Model) (ls : List Bytes) → IsSome (render_lines t w m ls)
    unfolding render_lines
    render_lines-IsSome m ls =
        let (v, e) = visible_lines-IsSome m.inspect_scroll (inspect_rows m) ls in rw e (_, refl)

    module _ (k : Machine) (law : IsMachine k) where
      render_preview-IsSome : (m : Model) → Inv k m → IsSome (render_preview t m)
      unfolding render_preview
      render_preview-IsSome m v = elim (cursor_event_lem k law m v) [
        | inl (e, c) ↦ rw (render_preview, c) (_, refl)
        | inr (ev, c) ↦ rw (render_preview, c) (_, refl)
      ]

      render_inspector-IsSome : (m : Model) → Inv k m → IsSome (render_inspector t w m)
      unfolding render_inspector
      render_inspector-IsSome m v = elim (cursor_event_lem k law m v) [
        | inl (e, c) ↦ rw (render_inspector, c) (_, refl)
        | inr (ev, c) ↦
            let (ls, el) = inspect_lines-IsSome ev in
            rw (render_inspector, c, el) (render_lines-IsSome m ls)
      ]

      list_rows-IsSome : (m : Model) → Inv k m → IsSome (list_rows t m)
      unfolding list_rows
      list_rows-IsSome m v =
          rows-IsSome (draw_event t m) (length m.display_rows) m.cursor (list_data_rows m)
            (draw_event-IsSome t m v.rows_in_range)

      render_list_view-IsSome : (m : Model) → Inv k m → IsSome (render_list_view t m)
      unfolding render_list_view
      render_list_view-IsSome m v =
          let (ls, e) = list_rows-IsSome m v in
          let (p, e') = render_preview-IsSome m v in rw (e, e') (_, refl)

      render_analytics-IsSome : (m : Model) → IsSome (render_analytics t m)
      unfolding render_analytics analytics_lines
      render_analytics-IsSome m =
          let (ls, e) =
            rows-IsSome (draw_analytics t m) (length m.analytics_rows) m.analytics_cursor
              (analytics_data_rows m) (draw_analytics-IsSome m) in
          rw e (_, refl)

      render-IsSome : (mode : ViewMode) (m : Model) → Inv k m → IsSome (render t w mode m)
      unfolding render
      render-IsSome view_analytics m v = render_analytics-IsSome m
      render-IsSome view_inspect m v = render_inspector-IsSome m v
      render-IsSome view_list m v = render_list_view-IsSome m v

      view_events-IsSome :
          (m : Model) (evs : List TapEvent) → Inv k m → IsSome (view_events t w m evs)
      unfolding view_events
      view_events-IsSome m [] v = (_, refl)
      view_events-IsSome m (ev ∷ evs) v = let (text, e) = render-IsSome m.view m v in rw e (_, refl)

      view_error-IsSome : (m : Model) (e : Option Bytes) → Inv k m → IsSome (view_error t w m e)
      unfolding view_error
      view_error-IsSome m none v = view_events-IsSome m m.events v
      view_error-IsSome m (some e) v = (_, refl)

      view-IsSome : (m : Model) → Inv k m → IsSome (view t w m)
      unfolding view
      view-IsSome m v = elim (Bool-cases (m.width == 0)) [
        | inl e ↦ rw e (_, refl)
        | inr e ↦ rw e (view_error-IsSome m m.err v)
      ]

      -- Every screen is drawn: after any list of messages from the start, View gives a text, that
      -- is, it indexes and slices no list out of range and decodes the bodies to their end. It is
      -- assumed that protowire takes no more bytes than there are, that the empty text is its own
      -- lower case and that the sort permutes.
      pub view-update_all :
          (last_rune : LastRune) (lines : TapEvent → List Bytes) (msgs : List Msg) (target : Bytes)
          → (m : Model) × (text : Bytes) × (update_all k last_rune lines msgs (new target) ≡ some m)
            × (view t w m ≡ some text)
      view-update_all last_rune lines msgs target =
          let (m, e, v) =
            update_all-Inv k law last_rune lines msgs (new target) (new-Inv k law target) in
          let (text, e') = view-IsSome m v in (m, text, e, e')
