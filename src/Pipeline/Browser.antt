-- ===== src/Pipeline/Browser.antt =====
-- From the proxy's channel of events to the browser: proxy/reverse_proxy.go, cmd/grpc-tapd/main.go,
-- broker/broker.go and handleSSE of web/web.go together.
use grpc_tap.Prelude.{
  ◌≤◌, ◌≡◌, refl, ap, ◌∙◌, some, List, ◌∷◌, map, length, replicate, All, Bytes, Result, true,
}
use grpc_tap.Proxy.Types.{Event}
use grpc_tap.Broker.Delivery.{waiting}
use grpc_tap.Web.{Formats, EventJson, event_to_json}
use grpc_tap.Web.Sse.{arrived, stream, streaming, sse_headers, handle_sse}
use grpc_tap.Web.Sse.Stream.{IsLine, read_stream, chunks_of}
use grpc_tap.Daemon.Flow.{Flow, Move, pumps, ends, opens, takes, start, flow, captured}
use grpc_tap.Daemon.Flow.Laws.{IsLive}
use grpc_tap.Daemon.Flow.Delivery.{StaysIn}
use grpc_tap.Pipeline.Captured.{flow_received}

module _ (f : Formats) (marshal : EventJson f.floats.Float → Result Bytes)
    (text : EventJson f.floats.Float → Bytes) where
  -- Every call that the proxy captures reaches the browser: if its subscriber is there from the
  -- start and stays, and the proxy captures at most 256 events before it ends, then, once the loop
  -- of the daemon has handed on what is left and the subscriber has received what waits for it, the
  -- browser that reads its stream has one message for each event that was captured, the event's
  -- JSON, in their order. It is assumed that an event has a JSON text, without a line feed.
  pub read_stream-flow :
      (moves : List (Move Event))
      → ((e : EventJson f.floats.Float) → marshal e ≡ Result.good (text e))
      → ((e : EventJson f.floats.Float) → IsLine (text e))
      → All IsLive moves
      → All (StaysIn 0) moves
      → length (captured moves) ≤ 256
      → (w : Flow Event) × (w' : Flow Event) × (w'' : Flow Event) × (chunks : List Bytes) × (flow
            (opens ∷ moves)
            start
          ≡ some w)
        × (flow (ends ∷ replicate (length w.events.buf) pumps) w ≡ some w')
        × (flow (replicate (length (waiting 0 w'.world)) (takes 0)) w' ≡ some w'')
        × (handle_sse f marshal true (map arrived (w''.world.got 0))
            ≡ stream sse_headers chunks streaming)
        × (read_stream chunks ≡ map (λ ev. text (event_to_json f ev)) (captured moves))
  unfolding handle_sse
  read_stream-flow moves good_json line live stay few =
      let (w, w', w'', r, r', r'', got) = flow_received moves live stay few in
      let (chunks, loop, read) = chunks_of f marshal text good_json line (w''.world.got 0) in
      (
        w,
        w',
        w'',
        chunks,
        r,
        r',
        r'',
        rw loop refl,
        read ∙ ap (map (λ ev. text (event_to_json f ev))) got,
      )
