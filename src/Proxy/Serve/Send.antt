-- ===== src/Proxy/Serve/Send.antt =====
-- proxy/reverse_proxy.go, ServeHTTP to its end: the send to the channel of events, which waits while
-- the channel is full and panics once ListenAndServe has closed it. By then the client has its reply.
use mathlib.Core.List.{flatten}
use grpc_tap.Prelude.{
  ◌≤◌, ◌<◌, ◌≡◌, refl, ◌⊎◌, inl, inr, ◌++◌, Option, some, List, [], ◌∷◌, Bytes, codes, true, false,
  ltb, if◌then◌else◌, ◌>>=◌, eq_bytes, length, arith, All, Bool-cases,
}
use grpc_tap.Chan.{Chan}
use grpc_tap.Proxy.Types.{Header, Event}
use grpc_tap.Proxy.Header.{values, IsMap}
use grpc_tap.Proxy.FrameCounter.Stream.{IsChunk}
use grpc_tap.Proxy.Detect.{detect_protocol}
use grpc_tap.Proxy.Status.{ConnectCodes, Response, extract_status}
use grpc_tap.Proxy.Serve.{
  Request, OutRequest, Outcome, answered, Reply, forwarded, Stamp, out_request, serve_http,
}
use grpc_tap.Proxy.Serve.Laws.{serve_http-forwards}

-- How the handler stands after the reply: it has returned, it waits for room in the channel, or it
-- has panicked.
pub data Served : Type 0 where
  returned : Reply → Chan Event → Served
  waiting : Reply → Event → Served
  panicked : Reply → Served

-- `rp.events <- ev`.
unfoldable pub send_event : Reply → Event → Chan Event → Served
send_event reply ev events =
    if events.closed
    then panicked reply
    else if ltb (length events.buf) events.cap
    then returned reply (record events { buf = events.buf ++ (ev ∷ []) })
    else waiting reply ev

-- There is one event, or none where the upstream server gave no answer.
unfoldable pub send_events : Reply × List Event → Chan Event → Served
send_events (reply, []) events = returned reply events
send_events (reply, ev ∷ evs) events = send_event reply ev events

-- What the send leaves, in the three states of the channel.
abbrev pub SendsTo : Chan Event → Reply → Event → Option Served → Type 0
SendsTo events reply ev result =
    ((events.closed ≡ true) × (result ≡ some (panicked reply)))
    ⊎ ((events.closed ≡ false)
        × (length events.buf < events.cap)
        × (result ≡ some (returned reply (record events { buf = events.buf ++ (ev ∷ []) }))))
    ⊎ ((events.closed ≡ false)
        × (events.cap ≤ length events.buf)
        × (result ≡ some (waiting reply ev)))

send_event-SendsTo :
    (events : Chan Event) (reply : Reply) (ev : Event)
    → SendsTo events reply ev (some (send_event reply ev events))
unfolding send_event
send_event-SendsTo events reply ev = elim (Bool-cases events.closed) [
  | inl e ↦ inl (e, rw e refl)
  | inr e ↦ elim (Bool-cases (ltb (length events.buf) events.cap)) [
    | inl room ↦ inr (inl (e, ground (arith, room), rw (e, room) refl))
    | inr full ↦ inr (inr (e, ground (arith, full), rw (e, full) refl))
  ]
]

module _ {R : Type 0} (new_reader : Bytes → Option R) (inflate : R → Option Bytes)
    (c : ConnectCodes) where
  -- The whole handler. `none` is a panic before the send.
  unfoldable pub serve_and_send :
      (OutRequest → Outcome) → Stamp → Request → Chan Event → Option Served
  serve_and_send upstream stamp r events = do
    served ← serve_http new_reader inflate c upstream stamp r
    some (send_events served events)

  -- A call that the upstream server answers is forwarded, when its bodies are read in chunks of less
  -- than 2^32 bytes and the header of the answer has each key once: the client gets the status, all
  -- the bytes of the body in their order, and under every key but Trailer the values that the
  -- upstream server sent. Then one event, with the path, the status and the message of the call, is
  -- sent. The handler returns, with the event last in the channel, if the channel is open and has
  -- room; it waits if the channel is open and full; it panics, after the reply, if it is closed.
  pub serve_and_send-forwards :
      (upstream : OutRequest → Outcome) (stamp : Stamp) (r : Request) (sent received : List Bytes)
      (resp : Response) (j : Bytes) (events : Chan Event)
      → upstream (out_request r) ≡ answered sent resp received
      → All IsChunk sent
      → All IsChunk received
      → IsMap resp.header
      → eq_bytes (codes "Trailer") j ≡ false
      → (h late : Header) × (ev : Event) × SendsTo events
          (forwarded resp.status_code h late (flatten received))
          ev
          (serve_and_send upstream stamp r events)
        × (values j h ≡ values j resp.header)
        × (ev.method ≡ r.path)
        × ((ev.status, ev.error) ≡ extract_status c (detect_protocol r.header) resp)
  unfolding serve_and_send send_events
  serve_and_send-forwards upstream stamp r sent received resp j events u hs hr m t =
      let (h, late, ev, e, same, path, status) =
        serve_http-forwards new_reader inflate c upstream stamp r sent received resp j u hs hr m
          t in
      (h, late, ev, rw e (send_event-SendsTo events _ ev), same, path, status)
