-- ===== src/Web.antt =====
-- web/web.go: events as the browser sees them, and the handler of a replay. JSON, base64 and the
-- format of a time are parameters.
pub mod Toy
mod Runs
pub mod Laws
pub mod Sse
pub mod Routes
pub mod Resend
use grpc_tap.Prelude.{
  Result, bad, good, ℕ, ◌*◌, ◌++◌, Option, none, some, List, [], ◌∷◌, Bytes, codes, Bool, ltb, not,
  ◌||◌, if◌then◌else◌, is_empty, has_prefix, length,
}
use grpc_tap.Prelude.Int.{ℤ, pos, div_int64}
use grpc_tap.Proxy.Types.{Event, call_type_string, protocol_string}
use grpc_tap.Proxy.Capture.{max_capture_size}
use grpc_tap.Server.{flatten_headers}
use grpc_tap.Tui.Env.{Floats}

-- `time.RFC3339Nano`, base64 and float64.
pub record Formats : Type 1 where
  pub format_time : ℤ → Bytes
  pub encode_base64 : Bytes → Bytes
  pub decode_base64 : Bytes → Result Bytes
  pub floats : Floats

pub record EventJson (F : Type 0) : Type 0 where
  pub id : Bytes
  pub method : Bytes
  pub call_type : Bytes
  pub protocol : Bytes
  pub start_time : Bytes
  pub duration_ms : F
  pub status : ℤ
  pub error : Bytes
  pub request_headers : List (Bytes × Bytes)
  pub response_headers : List (Bytes × Bytes)
  pub request_body : Bytes
  pub response_body : Bytes

-- `replayResponse`, with the status that `writeJSON` sends it at.
pub record ReplayResponse (F : Type 0) : Type 0 where
  pub status : ℕ
  pub event : Option (EventJson F)
  pub error : Bytes

module _ (f : Formats) where
  unfoldable pub encode_body : Bytes → Bytes
  encode_body s = if is_empty s then [] else f.encode_base64 s

  unfoldable pub event_to_json : Event → EventJson f.floats.Float
  event_to_json ev = record {
    id = ev.id;
    method = ev.method;
    call_type = call_type_string ev.call_type;
    protocol = protocol_string ev.protocol;
    start_time = f.format_time ev.start_time;
    duration_ms =
        f.floats.div (f.floats.of_int (div_int64 ev.duration 1000)) (f.floats.of_int (pos 1000));
    status = ev.status;
    error = ev.error;
    request_headers = flatten_headers ev.request_headers;
    response_headers = flatten_headers ev.response_headers;
    request_body = encode_body ev.request_body;
    response_body = encode_body ev.response_body;
  }

  unfoldable pub refuse : ℕ → Bytes → ReplayResponse f.floats.Float
  refuse status e = record { status = status; event = none; error = e }

  -- The proxy's answer to a call that passed the checks, with the calls that were made.
  unfoldable pub call_replay :
      (Bytes → Bytes → Result Event)
      → Bytes
      → Bytes
      → ReplayResponse f.floats.Float × List (Bytes × Bytes)
  call_replay replay method body = (
    elim (replay method body) [
      | bad e ↦ refuse 500 e
      | good ev ↦ record { status = 200; event = some (event_to_json ev); error = [] }
    ],
    (method, body) ∷ [],
  )

  -- From the base64 decoder on.
  unfoldable pub replay_decoded :
      (Bytes → Bytes → Result Event)
      → Bytes
      → Result Bytes
      → ReplayResponse f.floats.Float × List (Bytes × Bytes)
  replay_decoded replay method (bad e) = (refuse 400 (codes "invalid base64 body: " ++ e), [])
  replay_decoded replay method (good body) =
      if ltb max_capture_size (length body)
      then (refuse 400 (codes "request body too large"), [])
      else call_replay replay method body

  -- `handleReplay` from the decoded request on; the bounded reader and the decoding are in
  -- `answer_replay` (Web/Routes). The request is what the JSON decoder makes of the body: the method and the body in
  -- base64. `replay` is the proxy's Replay.
  unfoldable pub handle_replay :
      (Bytes → Bytes → Result Event)
      → Result (Bytes × Bytes)
      → ReplayResponse f.floats.Float × List (Bytes × Bytes)
  handle_replay replay (bad e) = (refuse 400 (codes "invalid request body: " ++ e), [])
  handle_replay replay (good (method, body64)) =
      if is_empty method || not (has_prefix method (codes "/"))
      then (refuse 400 (codes "invalid method: must be a non-empty path starting with '/'"), [])
      else replay_decoded replay method (f.decode_base64 body64)
