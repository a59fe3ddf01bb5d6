-- ===== src/Proxy/Types.antt =====
-- proxy/proxy.go: the int32 enumerations CallType and Protocol with their String methods, and Event.
use grpc_tap.Prelude.{◌++◌, Bytes, codes, List, if◌then◌else◌}
use grpc_tap.Prelude.Int.{ℤ, pos, eq_ℤ}
use grpc_tap.Prelude.Decimal.{print_int}

abbrev pub CallType : Type 0
CallType = ℤ

abbrev pub unary : CallType
unary = pos 0

abbrev pub server_stream : CallType
server_stream = pos 1

abbrev pub client_stream : CallType
client_stream = pos 2

abbrev pub bidi_stream : CallType
bidi_stream = pos 3

-- `CallType.String`.
unfoldable pub call_type_string : CallType → Bytes
call_type_string c =
    if eq_ℤ c unary
    then codes "Unary"
    else if eq_ℤ c server_stream
    then codes "ServerStream"
    else if eq_ℤ c client_stream
    then codes "ClientStream"
    else if eq_ℤ c bidi_stream
    then codes "BidiStream"
    else codes "UnknownCallType(" ++ (print_int c ++ codes ")")

abbrev pub Protocol : Type 0
Protocol = ℤ

abbrev pub protocol_grpc : Protocol
protocol_grpc = pos 0

abbrev pub protocol_grpc_web : Protocol
protocol_grpc_web = pos 1

abbrev pub protocol_connect : Protocol
protocol_connect = pos 2

-- `Protocol.String`.
unfoldable pub protocol_string : Protocol → Bytes
protocol_string p =
    if eq_ℤ p protocol_grpc
    then codes "gRPC"
    else if eq_ℤ p protocol_grpc_web
    then codes "gRPC-Web"
    else if eq_ℤ p protocol_connect
    then codes "Connect"
    else codes "UnknownProtocol(" ++ (print_int p ++ codes ")")

-- `http.Header`: the values of each canonical key.
abbrev pub Header : Type 0
Header = List (Bytes × List Bytes)

-- Times are nanoseconds on the wall clock, durations are in nanoseconds.
pub record Event : Type 0 where
  pub id : Bytes
  pub method : Bytes
  pub call_type : CallType
  pub protocol : Protocol
  pub start_time : ℤ
  pub duration : ℤ
  pub status : ℤ
  pub error : Bytes
  pub request_headers : Header
  pub response_headers : Header
  pub request_body : Bytes
  pub response_body : Bytes
