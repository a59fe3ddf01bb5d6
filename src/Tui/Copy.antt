-- ===== src/Tui/Copy.antt =====
-- tui/model.go, copyBody: whether the text of a body reached the clipboard, as `Update` takes it
-- from its `Machine`.
use grpc_tap.Prelude.{Option, none, some, Bytes, Bool, true, false}
use grpc_tap.Proxy.Wire.{ProtoWire}
use grpc_tap.Proxy.Wire.Encode.{Numbers}
use grpc_tap.Proxy.Wire.Text.{JsonCodec, body_to_clipboard_text}
use grpc_tap.Clipboard.{System, copy}

unfoldable pub succeeds : Option Bytes → Bool
succeeds none = true
succeeds (some e) = false

unfoldable pub copies : System → ProtoWire → Numbers → JsonCodec → Bytes → Bool
copies s w n c body = elim (body_to_clipboard_text w n c body) [
  | none ↦ false
  | some text ↦ succeeds (copy s text)
]
