-- ===== src/Proxy/Detect.antt =====
-- DetectProtocol of proxy/reverse_proxy.go and DetectCallType of proxy/frame.go.
use mathlib.Core.List.{flatten}
use mathlib.Core.Path.{ap₂}
use grpc_tap.Prelude.{
  ℕ, ◌≡◌, refl, ap, ◌∙◌, ◌≢◌, ◌↔◌, Option, none, some, List, Bytes, codes, Bool, true, false, ltb,
  leb, not, ◌&&◌, ◌||◌, if◌then◌else◌, has_prefix, is_empty, arith, length, All, has_prefix-shorter,
}
use grpc_tap.Prelude.Int.{eq_ℤ, eq_ℤ_iff}
use grpc_tap.Proxy.Types.{
  CallType, unary, server_stream, client_stream, bidi_stream, Protocol, protocol_grpc,
  protocol_grpc_web, protocol_connect, Header,
}
use grpc_tap.Proxy.Header
use grpc_tap.Proxy.FrameCounter.{FrameCounter, new_frame_counter, read_all}
use grpc_tap.Proxy.FrameCounter.Stream.{IsChunk, headers, read_all-headers}

-- `DetectProtocol`, at the headers of the request.
unfoldable pub detect_protocol : Header → Protocol
detect_protocol h =
    let ct = Header.get (codes "Content-Type") h in
    if has_prefix ct (codes "application/grpc-web")
    then protocol_grpc_web
    else if has_prefix ct (codes "application/grpc")
    then protocol_grpc
    else protocol_connect

-- `none` is the nil pointer.
abbrev pub frame_count : Option FrameCounter → ℕ
frame_count none = 0
frame_count (some fc) = fc.count

unfoldable pub detect_call_type :
    Protocol → Bytes → Option FrameCounter → Option FrameCounter → CallType
detect_call_type protocol content_type req_frames resp_frames =
    let req_count = frame_count req_frames in
    let resp_count = frame_count resp_frames in
    if eq_ℤ protocol protocol_connect
    then (if not (is_empty content_type)
          && (has_prefix content_type (codes "application/connect+proto")
              || has_prefix content_type (codes "application/connect+json"))
        then server_stream
        else unary)
    else if leb req_count 1 && leb resp_count 1
    then unary
    else if leb req_count 1
    then server_stream
    else if leb resp_count 1
    then client_stream
    else bidi_stream

-- The ladder of `detect_protocol` over the results of its tests.
abbrev pick : Bool → Bool → Protocol
pick web grpc = if web then protocol_grpc_web else if grpc then protocol_grpc else protocol_connect

abbrev pub Picks : Bool → Bool → Protocol → Type 0
Picks web grpc p =
    ((p ≡ protocol_grpc_web) ↔ (web ≡ true))
    × ((p ≡ protocol_grpc) ↔ ((grpc ≡ true) × (web ≡ false)))
    × ((p ≡ protocol_connect) ↔ (grpc ≡ false))

pick-Picks : (web grpc : Bool) → (web ≡ true → grpc ≡ true) → Picks web grpc (pick web grpc)
pick-Picks true true h = (
  (λ _. refl, λ _. refl),
  (λ e. absurd (ground arith), λ e. cc (e.1)),
  (λ e. absurd (ground arith), λ e. cc),
)
pick-Picks true false h = cc (h refl)
pick-Picks false true h = (
  (λ e. absurd (ground arith), λ e. cc),
  (λ _. (refl, refl), λ _. refl),
  (λ e. absurd (ground arith), λ e. cc),
)
pick-Picks false false h = (
  (λ e. absurd (ground arith), λ e. cc),
  (λ e. absurd (ground arith), λ e. cc (e.0)),
  (λ _. refl, λ _. refl),
)

abbrev pub content_type_of : Header → Bytes
content_type_of = Header.get (codes "Content-Type")

-- The protocol is gRPC-Web exactly when the content type begins with application/grpc-web, gRPC
-- exactly when it begins with application/grpc and not with application/grpc-web, and Connect
-- exactly when it does not begin with application/grpc.
pub detect_protocol-Picks :
    (h : Header)
    → Picks
        (has_prefix (content_type_of h) (codes "application/grpc-web"))
        (has_prefix (content_type_of h) (codes "application/grpc"))
        (detect_protocol h)
unfolding detect_protocol
detect_protocol-Picks h =
    pick-Picks _ _
      (has_prefix-shorter (content_type_of h) (codes "application/grpc") (codes "-web"))

-- Which sides stream.
abbrev pub call_type_of : Bool → Bool → CallType
call_type_of false false = unary
call_type_of false true = server_stream
call_type_of true false = client_stream
call_type_of true true = bidi_stream

detect_call_type-counts :
    (p : Protocol) (ct : Bytes) (req resp : Option FrameCounter)
    → p ≢ protocol_connect
    → detect_call_type p ct req resp
      ≡ call_type_of (ltb 1 (frame_count req)) (ltb 1 (frame_count resp))
unfolding detect_call_type
detect_call_type-counts p ct req resp n =
    let other : eq_ℤ p protocol_connect ≡ false = ground (arith, eq_ℤ_iff p protocol_connect) in
    rw other (ground arith)

-- For a protocol other than Connect, over chunks shorter than 2^32 bytes, the call type says for
-- each direction whether its bytes hold the headers of two messages or more, however they were cut
-- into chunks.
pub detect_call_type-headers :
    (p : Protocol) (ct : Bytes) (req resp : List Bytes)
    → p ≢ protocol_connect
    → All IsChunk req
    → All IsChunk resp
    → let messages = λ (cs : List Bytes). headers (length (flatten cs)) (flatten cs) in
      detect_call_type p ct (read_all new_frame_counter req) (read_all new_frame_counter resp)
      ≡ call_type_of (ltb 1 (messages req)) (ltb 1 (messages resp))
detect_call_type-headers p ct req resp n hq hr =
    let (fq, eq, cq) = read_all-headers req hq in
    let (fr, er, cr) = read_all-headers resp hr in
    detect_call_type-counts p ct _ _ n
    ∙ ap₂ (λ a b. call_type_of (ltb 1 a) (ltb 1 b)) (ap frame_count eq ∙ cq)
        (ap frame_count er ∙ cr)
