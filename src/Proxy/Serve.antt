-- ===== src/Proxy/Serve.antt =====
-- proxy/reverse_proxy.go, ServeHTTP and Replay: a call is forwarded, captured and made an event.
-- The transport, the clock and the generator of ids are parameters.
pub mod Laws
pub mod Calls
pub mod Bounds
pub mod Replay
pub mod Send
use mathlib.Core.List.{flatten}
use grpc_tap.Prelude.{
  ℕ, ◌+◌, ◌++◌, Option, none, some, List, [], ◌∷◌, Bytes, codes, Bool, true, false, ◌||◌, ◌>>=◌,
  if◌then◌else◌,
}
use grpc_tap.Prelude.Int.{ℤ, pos, eq_ℤ}
use grpc_tap.Chan.{Chan, try_send}
use grpc_tap.Proxy.Types.{Header, Event, Protocol, protocol_grpc, protocol_grpc_web, unary}
use grpc_tap.Proxy.Header.{get, add, add_all, copy_headers}
use grpc_tap.Proxy.FrameCounter.{FrameCounter, new_frame_counter, read_all}
use grpc_tap.Proxy.Capture
use grpc_tap.Proxy.Payload.{frame, extract_payload, decompress_gzip}
use grpc_tap.Proxy.Detect.{detect_protocol, detect_call_type}
use grpc_tap.Proxy.Status.{ConnectCodes, Response, extract_status, extract_grpc_status}

-- `http.Request`, the fields that are read, less the body.
pub record Request : Type 0 where
  pub http_method : Bytes
  pub path : Bytes
  pub raw_query : Bytes
  pub header : Header
  pub trailer : Header

-- The request to the upstream server.
pub record OutRequest : Type 0 where
  pub http_method : Bytes
  pub path : Bytes
  pub raw_query : Bytes
  pub header : Header
  pub trailer : Header

-- What became of the request to the upstream server: it could not be built, or `RoundTrip` failed,
-- each with its error, or an answer came. `sent` are the chunks that were read of the request's body, `received` those of the
-- response's body.
pub data Outcome : Type 0 where
  not_built : Bytes → Outcome
  failed : Bytes → Outcome
  answered : List Bytes → Response → List Bytes → Outcome

-- What the client is sent: `http.Error` at status 502, or the response. `header` is the header of
-- the writer when the status is written, `late_header` its value at the end.
pub data Reply : Type 0 where
  bad_gateway : Bytes → Reply
  forwarded : (status : ℕ) (header late_header : Header) (body : Bytes) → Reply

-- The id, the start and the duration of a call.
pub record Stamp : Type 0 where
  pub id : Bytes
  pub start_time : ℤ
  pub duration : ℤ

unfoldable pub is_framed : Protocol → Bool
is_framed p = eq_ℤ p protocol_grpc || eq_ℤ p protocol_grpc_web

-- The request to the upstream server, whose header is empty before the copy.
unfoldable pub out_request : Request → OutRequest
out_request r = record {
  http_method = r.http_method;
  path = r.path;
  raw_query = r.raw_query;
  header = copy_headers [] r.header;
  trailer = r.trailer;
}

unfoldable pub announce : List Bytes → Header → Header
announce [] h = h
announce (k ∷ ks) h = announce ks (add (codes "Trailer") k h)

-- The trailers, under their prefix `Trailer:`.
unfoldable pub add_trailers : Header → Header → Header
add_trailers [] h = h
add_trailers ((k, vs) ∷ trailer) h = add_trailers trailer (add_all (codes "Trailer:" ++ k) vs h)

-- The counter over the chunks of a body, nil for Connect. `none` outside is a panic.
unfoldable pub count_frames : Protocol → List Bytes → Option (Option FrameCounter)
count_frames p chunks =
    if is_framed p
    then elim (read_all new_frame_counter chunks) [ none ↦ none | some fc ↦ some (some fc) ]
    else some none

-- `Replay`'s own request.
unfoldable pub replay_header : Header
replay_header =
    (codes "Content-Type", (codes "application/grpc" ∷ []))
    ∷ (codes "Te", (codes "trailers" ∷ []))
    ∷ []

unfoldable pub call_event :
    ConnectCodes
    → Stamp
    → Request
    → Response
    → Option FrameCounter
    → Option FrameCounter
    → Bytes
    → Bytes
    → Event
call_event c stamp r resp req_frames resp_frames req_body resp_body =
    let protocol = detect_protocol r.header in
    let (status, message) = extract_status c protocol resp in
    record {
      id = stamp.id;
      method = r.path;
      call_type =
          detect_call_type protocol (get (codes "Content-Type") r.header) req_frames resp_frames;
      protocol = protocol;
      start_time = stamp.start_time;
      duration = stamp.duration;
      status = status;
      error = message;
      request_headers = r.header;
      response_headers = resp.header;
      request_body = req_body;
      response_body = resp_body;
    }

module _ {R : Type 0} (new_reader : Bytes → Option R) (inflate : R → Option Bytes) where
  -- The body that the event shows.
  unfoldable pub captured : Protocol → List Bytes → Option Bytes
  captured p chunks =
      let kept =
        Capture.bytes
          (Capture.read_all (Capture.new_capture_reader Capture.max_capture_size) chunks) in
      if is_framed p
      then extract_payload new_reader inflate kept
      else some (decompress_gzip new_reader inflate kept)

  -- Up to `rp.events <-`: the reply, and the event that is then sent, if any. `none` is a panic
  -- before the send; the send, which may wait or panic, is in `serve_and_send` (Proxy/Serve/Send).
  unfoldable pub serve_http :
      ConnectCodes → (OutRequest → Outcome) → Stamp → Request → Option (Reply × List Event)
  serve_http c upstream stamp r =
      let p = detect_protocol r.header in
      elim (upstream (out_request r)) [
        | not_built e ↦ some (bad_gateway e, [])
        | failed e ↦ some (bad_gateway e, [])
        | answered sent resp received ↦ do
          req_frames ← count_frames p sent
          resp_frames ← count_frames p received
          let h = announce resp.announced (copy_headers [] resp.header)
          req_body ← captured p sent
          resp_body ← captured p received
          some (
            forwarded resp.status_code h (add_trailers resp.trailer h) (flatten received),
            call_event c stamp r resp req_frames resp_frames req_body resp_body ∷ [],
          )
      ]

-- What became of the request of a replay: an error when it was built, sent, or its answer read, or
-- the answer.
pub data ReplayOutcome : Type 0 where
  not_built not_sent not_read : Bytes → ReplayOutcome
  replied : Response → Bytes → ReplayOutcome

-- What `Replay` returns: the text of an error, or the event.
pub data Replayed : Type 0 where
  replay_error : Bytes → Replayed
  replay_event : Event → Replayed

unfoldable pub replayed_event : Stamp → Bytes → Bytes → Response → Bytes → Event
replayed_event stamp method body resp payload =
    let (status, message) = extract_grpc_status resp in
    record {
      id = stamp.id;
      method = method;
      call_type = unary;
      protocol = protocol_grpc;
      start_time = stamp.start_time;
      duration = stamp.duration;
      status = status;
      error = message;
      request_headers = replay_header;
      response_headers = resp.header;
      request_body = body;
      response_body = payload;
    }

-- `Replay`, with the channel of events. `upstream` takes the path, the header and the body.
unfoldable pub replay :
    {R : Type 0}
    → (Bytes → Option R)
    → (R → Option Bytes)
    → (Bytes → Header → Bytes → ReplayOutcome)
    → Stamp
    → Bytes
    → Bytes
    → Chan Event
    → Option (Replayed × Chan Event)
replay new_reader inflate upstream stamp method body events =
    elim (upstream method replay_header (frame body)) [
      | ReplayOutcome.not_built e ↦
          some (replay_error (codes "replay: build request: " ++ e), events)
      | not_sent e ↦ some (replay_error (codes "replay: roundtrip: " ++ e), events)
      | not_read e ↦ some (replay_error (codes "replay: read response: " ++ e), events)
      | replied resp bytes ↦ do
        payload ← extract_payload new_reader inflate bytes
        let ev = replayed_event stamp method body resp payload
        events' ← try_send ev events
        some (replay_event ev, events')
    ]
