-- ===== src/Server/Runs.antt =====
-- The theorems on the service at concrete inputs.
use grpc_tap.Prelude.Int.{pos}
use grpc_tap.Prelude.{◌≡◌, refl, none, [], ◌∷◌, codes}
use grpc_tap.Proxy.Types.{Header, protocol_connect, call_type_string, protocol_string}
use grpc_tap.Proxy.Detect.{detect_protocol, detect_call_type}
use grpc_tap.Server.{join, call_type_to_proto, protocol_to_proto}
use grpc_tap.Server.Laws.{detected-names}
use grpc_tap.Proxy.Types.{Event}
use grpc_tap.Tui.Names.{call_type_name, protocol_name}

abbrev header : Header
header = (codes "Accept", (codes "a" ∷ codes "b" ∷ [])) ∷ []

join_two : join (codes "a" ∷ codes "b" ∷ []) ≡ codes "a, b"
unfolding join
join_two = refl

detected-names_example :
    (call_type_name (call_type_to_proto (detect_call_type protocol_connect [] none none))
      ≡ call_type_string (detect_call_type protocol_connect [] none none))
    × (protocol_name (protocol_to_proto (detect_protocol header))
        ≡ protocol_string (detect_protocol header))
detected-names_example = detected-names header protocol_connect [] none none

abbrev event : Event
event = record {
  id = codes "a";
  method = codes "/echo";
  call_type = pos 0;
  protocol = pos 0;
  start_time = pos 0;
  duration = pos 7;
  status = pos 0;
  error = [];
  request_headers = header;
  response_headers = [];
  request_body = [];
  response_body = [];
}
