-- ===== src/Tui/View/Screen.antt =====
-- tui/model.go, View.
use grpc_tap.Prelude.{
  Option, none, some, List, [], ◌∷◌, Bytes, codes, if◌then◌else◌, is_empty, ◌==◌, ◌>>=◌,
}
use grpc_tap.Proxy.Wire.{ProtoWire}
use grpc_tap.Tui.TapEvent.{TapEvent}
use grpc_tap.Tui.Model.{Model, ViewMode, view_list, view_inspect, view_analytics}
use grpc_tap.Tui.Format.{Terminal, friendly_error, overlay_alert}
use grpc_tap.Tui.View.Rows.{render_list_view, render_analytics}
use grpc_tap.Tui.View.Inspector.{render_inspector}

module _ (t : Terminal) (w : ProtoWire) where
  unfoldable pub render : ViewMode → Model → Option Bytes
  render view_analytics m = render_analytics t m
  render view_inspect m = render_inspector t w m
  render view_list m = render_list_view t m

  -- The alert, where there is one.
  unfoldable pub with_alert : Model → Bytes → Bytes
  with_alert m text =
      if is_empty m.alert_message then text else overlay_alert t text m.alert_message m.width

  unfoldable pub view_events : Model → List TapEvent → Option Bytes
  view_events m [] = some (codes "Waiting for gRPC traffic...")
  view_events m (ev ∷ evs) = do text ← render m.view m; some (with_alert m text)

  unfoldable pub view_error : Model → Option Bytes → Option Bytes
  view_error m (some e) = some (friendly_error t e m.width)
  view_error m none = view_events m m.events

  -- `View`.
  unfoldable pub view : Model → Option Bytes
  view m = if m.width == 0 then some [] else view_error m m.err
