-- ===== src/Proxy/Wire/Text.antt =====
-- proxy/frame.go, ProtoWireToJSON and JSONToProtoWire, and tui/model.go, bodyToClipboardText. The
-- package encoding/json is a parameter.
use grpc_tap.Prelude.{Option, some, ◌++◌, Bytes, codes, ◌>>=◌}
use grpc_tap.Proxy.Wire.{ProtoWire, WireMap, Decoded, good, bad, proto_wire_to_map}
use grpc_tap.Proxy.Wire.Encode.{JsonMap, Encoded, Numbers, map_to_proto_wire}

-- What `json.Unmarshal` makes of a text.
pub data Parsed : Type 0 where
  parsed : JsonMap → Parsed
  malformed : Bytes → Parsed

-- `json.MarshalIndent` and `json.Unmarshal`.
pub record JsonCodec : Type 0 where
  pub marshal : WireMap → Encoded
  pub unmarshal : Bytes → Parsed

module _ (w : ProtoWire) (n : Numbers) (c : JsonCodec) where
  unfoldable pub marshalled : Encoded → Encoded
  marshalled (Encoded.good b) = Encoded.good b
  marshalled (Encoded.bad e) = Encoded.bad (codes "proto wire to json: " ++ e)

  unfoldable pub decoded_to_json : Decoded → Encoded
  decoded_to_json (good m) = marshalled (c.marshal m)
  decoded_to_json (bad e) = Encoded.bad e

  -- `ProtoWireToJSON`; none where the fuel ran out, which it does not (`Fuel`).
  unfoldable pub proto_wire_to_json : Bytes → Option Encoded
  proto_wire_to_json s = do d ← proto_wire_to_map w s; some (decoded_to_json d)

  unfoldable pub parsed_to_wire : Parsed → Encoded
  parsed_to_wire (parsed o) = map_to_proto_wire w n o
  parsed_to_wire (malformed e) = Encoded.bad (codes "json unmarshal: " ++ e)

  -- `JSONToProtoWire`.
  unfoldable pub json_to_proto_wire : Bytes → Encoded
  json_to_proto_wire text = parsed_to_wire (c.unmarshal text)

  unfoldable pub text_or_raw : Bytes → Encoded → Bytes
  text_or_raw body (Encoded.good text) = text
  text_or_raw body (Encoded.bad e) = body

  -- `bodyToClipboardText`.
  unfoldable pub body_to_clipboard_text : Bytes → Option Bytes
  body_to_clipboard_text body = do j ← proto_wire_to_json body; some (text_or_raw body j)
