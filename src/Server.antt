-- ===== src/Server.antt =====
-- server/server.go: the service that sends captured events to the TUI.
mod Runs
pub mod Laws
pub mod Watch
use grpc_tap.Prelude.{◌++◌, some, List, [], ◌∷◌, Bytes, codes, map, if◌then◌else◌}
use grpc_tap.Prelude.Int.{ℤ, pos, eq_ℤ}
use grpc_tap.Proxy.Types.{
  CallType, unary, server_stream, client_stream, bidi_stream, Protocol, protocol_grpc,
  protocol_grpc_web, protocol_connect, Header, Event,
}
use grpc_tap.Proxy.Serve.{Replayed, replay_error, replay_event}
use grpc_tap.Tui.TapEvent.{TapEvent}

-- `strings.Join(vs, ", ")`.
unfoldable pub join : List Bytes → Bytes
join [] = []
join (v ∷ []) = v
join (v ∷ w ∷ vs) = v ++ (codes ", " ++ join (w ∷ vs))

-- `flattenHeaders`; a nil map and an empty one have the same entries.
unfoldable pub flatten_headers : Header → List (Bytes × Bytes)
flatten_headers [] = []
flatten_headers ((k, vs) ∷ h) = (k, join vs) ∷ flatten_headers h

-- The numbers are those of the enumerations of proto/tap/v1/tap.proto.
unfoldable pub call_type_to_proto : CallType → ℤ
call_type_to_proto ct =
    if eq_ℤ ct unary
    then pos 1
    else if eq_ℤ ct server_stream
    then pos 2
    else if eq_ℤ ct client_stream
    then pos 3
    else if eq_ℤ ct bidi_stream
    then pos 4
    else pos 0

unfoldable pub protocol_to_proto : Protocol → ℤ
protocol_to_proto p =
    if eq_ℤ p protocol_grpc
    then pos 1
    else if eq_ℤ p protocol_grpc_web
    then pos 2
    else if eq_ℤ p protocol_connect
    then pos 3
    else pos 0

-- `eventToProto`. A time and a duration go through timestamppb and durationpb and back unchanged.
unfoldable pub event_to_proto : Event → TapEvent
event_to_proto ev = record {
  id = ev.id;
  method = ev.method;
  call_type = call_type_to_proto ev.call_type;
  start_time = some ev.start_time;
  duration = some ev.duration;
  status = ev.status;
  error = ev.error;
  protocol = protocol_to_proto ev.protocol;
  request_body = ev.request_body;
  response_body = ev.response_body;
  request_headers = flatten_headers ev.request_headers;
  response_headers = flatten_headers ev.response_headers;
}

-- What `Replay` of the service returns.
pub data ReplayReply : Type 0 where
  refused : Bytes → ReplayReply
  answered : TapEvent → ReplayReply

-- `Replay`, on what the proxy's Replay returns.
unfoldable pub replay_reply : Replayed → ReplayReply
replay_reply (replay_error e) = refused (codes "server: replay: " ++ e)
replay_reply (replay_event ev) = answered (event_to_proto ev)
