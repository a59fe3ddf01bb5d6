-- ===== src/Proxy/Toy.antt =====
-- A call through the proxy, for the concrete runs.
use grpc_tap.Prelude.{Option, none, List, [], ◌∷◌, Bytes, codes}
use grpc_tap.Prelude.Int.{pos}
use grpc_tap.Proxy.Types.{Header}
use grpc_tap.Proxy.Status.{Response, ConnectCodes}
use grpc_tap.Proxy.Serve.{Request, OutRequest, Outcome, answered, Stamp}

-- Two messages, of one byte and of none, cut inside a header.
abbrev pub two_messages : List Bytes
two_messages = (0 ∷ 0 ∷ 0 ∷ []) ∷ (0 ∷ 1 ∷ 9 ∷ 0 ∷ 0 ∷ []) ∷ (0 ∷ 0 ∷ 0 ∷ []) ∷ []

-- A gzip reader that rejects everything.
abbrev pub no_reader : Bytes → Option (Unit {0})
no_reader z = none

abbrev pub no_inflate : Unit {0} → Option Bytes
no_inflate r = none

-- The numbers of the gRPC status codes.
abbrev pub grpc_codes : ConnectCodes
grpc_codes = record {
  internal = pos 13;
  unauthenticated = pos 16;
  permission_denied = pos 7;
  unimplemented = pos 12;
  unavailable = pos 14;
  unknown = pos 2;
}

abbrev pub grpc_header : Header
grpc_header = (codes "Content-Type", (codes "application/grpc" ∷ [])) ∷ []

abbrev pub call : Request
call = record {
  http_method = codes "POST";
  path = codes "/echo.Echo/Say";
  raw_query = [];
  header = grpc_header;
  trailer = [];
}

abbrev pub stamp : Stamp
stamp = record { id = codes "a"; start_time = pos 0; duration = pos 7 }

abbrev pub ok_response : Response
ok_response = record {
  status_code = 200;
  status = codes "200 OK";
  header = grpc_header;
  trailer = (codes "Grpc-Status", (codes "0" ∷ [])) ∷ [];
  announced = codes "Grpc-Status" ∷ [];
}

-- A server that answers every call with the chunks `two_messages`, and reads as much.
abbrev pub answering : OutRequest → Outcome
answering r = answered two_messages ok_response two_messages
