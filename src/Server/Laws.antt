-- ===== src/Server/Laws.antt =====
-- The names and the headers of an event, as they reach the TUI.
use grpc_tap.Prelude.{
  ◌≡◌, refl, ◌⊎◌, inl, inr, Option, none, some, List, [], ◌∷◌, Bytes, Bool, true, false, eq_bytes,
  if◌then◌else◌, Bool-cases, arith,
}
use grpc_tap.Proxy.Types.{
  CallType, unary, server_stream, client_stream, bidi_stream, Protocol, protocol_grpc,
  protocol_grpc_web, protocol_connect, Header, call_type_string, protocol_string,
}
use grpc_tap.Proxy.Header.{values}
use grpc_tap.Proxy.FrameCounter.{FrameCounter}
use grpc_tap.Proxy.Detect.{detect_protocol, detect_call_type}
use grpc_tap.Server.{join, flatten_headers, call_type_to_proto, protocol_to_proto}
use grpc_tap.Tui.Names.{call_type_name, protocol_name}

-- The name of a call type or of a protocol is the same in the TUI and where the proxy's own String
-- method gives it.
abbrev Agrees : CallType → Type 0
Agrees ct = call_type_name (call_type_to_proto ct) ≡ call_type_string ct

abbrev AgreesProtocol : Protocol → Type 0
AgreesProtocol p = protocol_name (protocol_to_proto p) ≡ protocol_string p

detect_call_type-cases :
    (p : Protocol) (ct : Bytes) (req resp : Option FrameCounter)
    → let t = detect_call_type p ct req resp in
      (t ≡ unary) ⊎ ((t ≡ server_stream) ⊎ ((t ≡ client_stream) ⊎ (t ≡ bidi_stream)))
unfolding detect_call_type
detect_call_type-cases p ct req resp = ground arith

detect_protocol-cases :
    (h : Header)
    → let p = detect_protocol h in
      (p ≡ protocol_grpc) ⊎ ((p ≡ protocol_grpc_web) ⊎ (p ≡ protocol_connect))
unfolding detect_protocol
detect_protocol-cases h = ground arith

call_type_name-call_type_to_proto :
    (t : CallType)
    → (t ≡ unary) ⊎ ((t ≡ server_stream) ⊎ ((t ≡ client_stream) ⊎ (t ≡ bidi_stream)))
    → Agrees t
unfolding call_type_name call_type_to_proto call_type_string
call_type_name-call_type_to_proto t (inl e) = rw e
call_type_name-call_type_to_proto t (inr (inl e)) = rw e
call_type_name-call_type_to_proto t (inr (inr (inl e))) = rw e
call_type_name-call_type_to_proto t (inr (inr (inr e))) = rw e

protocol_name-protocol_to_proto :
    (p : Protocol)
    → (p ≡ protocol_grpc) ⊎ ((p ≡ protocol_grpc_web) ⊎ (p ≡ protocol_connect))
    → AgreesProtocol p
unfolding protocol_name protocol_to_proto protocol_string
protocol_name-protocol_to_proto p (inl e) = rw e
protocol_name-protocol_to_proto p (inr (inl e)) = rw e
protocol_name-protocol_to_proto p (inr (inr e)) = rw e

-- Whatever the request and its frames are, the call type and the protocol that the proxy detects
-- reach the TUI and its exports under the names that the web view shows for them.
pub detected-names :
    (h : Header) (p : Protocol) (ct : Bytes) (req resp : Option FrameCounter)
    → (call_type_name (call_type_to_proto (detect_call_type p ct req resp))
        ≡ call_type_string (detect_call_type p ct req resp))
      × (protocol_name (protocol_to_proto (detect_protocol h))
          ≡ protocol_string (detect_protocol h))
detected-names h p ct req resp = (
  call_type_name-call_type_to_proto _ (detect_call_type-cases p ct req resp),
  protocol_name-protocol_to_proto _ (detect_protocol-cases h),
)

-- The value of a key; none if the key is absent.
unfoldable pub lookup : Bytes → List (Bytes × Bytes) → Option Bytes
lookup k [] = none
lookup k ((j, v) ∷ m) = if eq_bytes j k then some v else lookup k m

-- Whether a header has a key.
unfoldable pub has : Bytes → Header → Bool
has k [] = false
has k ((j, vs) ∷ h) = if eq_bytes j k then true else has k h

-- The TUI finds under each key of a header the values of the header, joined, and under no other key
-- anything.
pub lookup-flatten_headers :
    (k : Bytes) (h : Header)
    → lookup k (flatten_headers h) ≡ (if has k h then some (join (values k h)) else none)
unfolding lookup has flatten_headers values
lookup-flatten_headers k [] = refl
lookup-flatten_headers k ((j, vs) ∷ h) = elim (Bool-cases (eq_bytes j k)) [
  | inl e ↦ rw e
  | inr e ↦ rw e (lookup-flatten_headers k h)
]
