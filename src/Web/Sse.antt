-- ===== src/Web/Sse.antt =====
-- web/web.go, handleSSE: the loop that sends a subscriber's events to the browser. Each round takes
-- what its `select` chose. `json.Marshal` is a parameter.
pub mod Stream
use grpc_tap.Prelude.{Result, bad, good, ◌++◌, List, [], ◌∷◌, Bytes, codes, Bool, true, false}
use grpc_tap.Proxy.Types.{Event}
use grpc_tap.Web
use grpc_tap.Web.{Formats, EventJson, event_to_json}

-- The request is over, the channel is closed and drained, or an event is received.
pub data SseTurn : Type 0 where
  request_done channel_closed : SseTurn
  arrived : Event → SseTurn

-- Where the handler is after the turns.
pub data SseState : Type 0 where
  streaming ended : SseState

-- The answer to a request whose writer cannot flush, or the headers and what is written.
pub data SseResponse : Type 0 where
  unsupported : SseResponse
  stream : List (Bytes × Bytes) → List Bytes → SseState → SseResponse

abbrev pub sse_headers : List (Bytes × Bytes)
sse_headers =
    (codes "Content-Type", codes "text/event-stream")
    ∷ ((codes "Cache-Control", codes "no-cache")
        ∷ ((codes "Connection", codes "keep-alive")
            ∷ ((codes "Access-Control-Allow-Origin", codes "*") ∷ [])))

-- `fmt.Fprintf(w, "data: %s\n\n", data)`.
unfoldable pub chunk : Bytes → Bytes
chunk text = codes "data: " ++ (text ++ (0x0a ∷ 0x0a ∷ []))

module _ (f : Formats) (marshal : EventJson f.floats.Float → Result Bytes) where
  -- An event that has no JSON is left out.
  unfoldable pub write_event : Result Bytes → List Bytes → List Bytes
  write_event (Result.bad e) chunks = chunks
  write_event (Result.good text) chunks = chunk text ∷ chunks

  unfoldable pub sse_loop : List SseTurn → List Bytes × SseState
  sse_loop [] = ([], streaming)
  sse_loop (request_done ∷ turns) = ([], ended)
  sse_loop (channel_closed ∷ turns) = ([], ended)
  sse_loop (arrived ev ∷ turns) =
      let (chunks, state) = sse_loop turns in
      (write_event (marshal (event_to_json f ev)) chunks, state)

  -- `handleSSE`.
  unfoldable pub handle_sse : Bool → List SseTurn → SseResponse
  handle_sse false turns = unsupported
  handle_sse true turns = let (chunks, state) = sse_loop turns in stream sse_headers chunks state
