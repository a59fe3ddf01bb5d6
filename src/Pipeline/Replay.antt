-- ===== src/Pipeline/Replay.antt =====
-- A call through the proxy, shown to the browser and sent again from there: ServeHTTP and Replay of
-- proxy/reverse_proxy.go, with eventToJSON and handleReplay of web/web.go.
use mathlib.Core.List.{flatten}
use grpc_tap.Prelude.{
  ◌+◌, ◌*◌, ◌^◌, ◌≤◌, ◌<◌, ◌≡◌, refl, ap, ◌∙◌, ◌++◌, Option, none, some, List, [], ◌∷◌, Bytes,
  codes, true, false, has_prefix, length, All, Result, bad, good, arith,
}
use grpc_tap.Chan.{Chan}
use grpc_tap.Proxy.Types.{Header, Event}
use grpc_tap.Proxy.FrameCounter.Stream.{IsChunk}
use grpc_tap.Proxy.Payload.{frame}
use grpc_tap.Proxy.Detect.{detect_protocol}
use grpc_tap.Proxy.Status.{ConnectCodes, Response}
use grpc_tap.Proxy.Serve.{
  Request, OutRequest, Outcome, answered, Reply, Stamp, is_framed, out_request, serve_http, replay,
  replay_header, ReplayOutcome, replied, Replayed, replay_error, replay_event,
}
use grpc_tap.Proxy.Serve.Laws.{serve_http-captures}
use grpc_tap.Proxy.Serve.Replay.{replay-answered}
use grpc_tap.Web.{Formats, event_to_json, call_replay, handle_replay}
use grpc_tap.Web.Resend.{handle_replay-call_replay}

module _ {R : Type 0} (new_reader : Bytes → Option R) (inflate : R → Option Bytes) where
  -- What the handler of the browser gets from the proxy's Replay. A panic has no result; here it has
  -- an error without a text.
  abbrev result_of : Option (Replayed × Chan Event) → Result Event
  result_of none = bad []
  result_of (some (replay_error e, events)) = bad e
  result_of (some (replay_event ev, events)) = good ev

  abbrev pub replay_result :
      (Bytes → Header → Bytes → ReplayOutcome) → Stamp → Chan Event → Bytes → Bytes → Result Event
  replay_result upstream stamp events method body =
      result_of (replay new_reader inflate upstream stamp method body events)

  call_replay-good :
      (f : Formats) (send : Bytes → Bytes → Result Event) (method body : Bytes) (ev : Event)
      → send method body ≡ good ev
      → call_replay f send method body ≡ (
        record { status = 200; event = some (event_to_json f ev); error = [] },
        (method, body) ∷ [],
      )
  unfolding call_replay
  call_replay-good f send method body ev e = rw e refl

  -- The second call is answered, too. What the browser shows of it is what was sent.
  replayed :
      (f : Formats) (upstream : Bytes → Header → Bytes → ReplayOutcome) (stamp : Stamp)
      (first : Event) (ans rest : Bytes) (resp : Response) (events : Chan Event)
      → ((s : Bytes) → f.decode_base64 (f.encode_base64 s) ≡ good s)
      → f.decode_base64 [] ≡ good []
      → has_prefix first.method (codes "/") ≡ true
      → length first.request_body ≤ 64 * 1024
      → upstream first.method replay_header (frame first.request_body)
        ≡ replied resp (frame ans ++ rest)
      → 5 + length ans + length rest < 2 ^ 32
      → events.closed ≡ false
      → (ev : Event) × (handle_replay f
            (replay_result upstream stamp events)
            (good ((event_to_json f first).method, (event_to_json f first).request_body))
          ≡ (
            record { status = 200; event = some (event_to_json f ev); error = [] },
            (first.method, first.request_body) ∷ [],
          ))
        × (ev.method ≡ first.method)
        × (ev.request_body ≡ first.request_body)
        × (ev.response_body ≡ ans)
  replayed f upstream stamp first ans rest resp events inverse none_at_all path small u fits live =
      let (ev, r, _, m, b, a, _) =
        replay-answered new_reader inflate upstream stamp first.method first.request_body ans rest
          resp events u fits live in
      let send = replay_result upstream stamp events in
      (
        ev,
        handle_replay-call_replay f send first inverse none_at_all path small
            ∙ call_replay-good f send first.method first.request_body ev (rw r refl),
        m,
        b,
        a,
      )

  -- A gRPC or gRPC-Web call that is answered, and whose bodies each begin with an uncompressed
  -- message that fits in 64 KiB with its frame, cut into chunks of less than 2^32 bytes in any way,
  -- sends one event. If the browser sends back what it is shown of this event, and the upstream
  -- server answers the same path and the same first message, in its frame, with a framed message of
  -- less than 2^32 bytes in all, the handler of the replays answers status 200, with an event that
  -- shows the same path, the message that was sent first, and the new answer. It is assumed that
  -- the path begins with a slash, that the channel of events is open, and that base64 can be
  -- decoded, also that of nothing.
  pub serve_http-replayed :
      (c : ConnectCodes) (f : Formats) (upstream : OutRequest → Outcome) (stamp again : Stamp)
      (r : Request) (sent received : List Bytes) (resp resp' : Response)
      (req rest_req ans rest_ans ans' rest' : Bytes)
      (upstream' : Bytes → Header → Bytes → ReplayOutcome) (events : Chan Event)
      → upstream (out_request r) ≡ answered sent resp received
      → is_framed (detect_protocol r.header) ≡ true
      → All IsChunk sent
      → All IsChunk received
      → flatten sent ≡ frame req ++ rest_req
      → flatten received ≡ frame ans ++ rest_ans
      → 5 + length req ≤ 64 * 1024
      → 5 + length ans ≤ 64 * 1024
      → has_prefix r.path (codes "/") ≡ true
      → upstream' r.path replay_header (frame req) ≡ replied resp' (frame ans' ++ rest')
      → 5 + length ans' + length rest' < 2 ^ 32
      → events.closed ≡ false
      → ((s : Bytes) → f.decode_base64 (f.encode_base64 s) ≡ good s)
      → f.decode_base64 [] ≡ good []
      → (reply : Reply) × (first : Event) × (ev : Event) × (serve_http new_reader inflate c upstream
            stamp r
          ≡ some (reply, first ∷ []))
        × (handle_replay f
              (replay_result upstream' again events)
              (good ((event_to_json f first).method, (event_to_json f first).request_body))
            ≡ (
              record { status = 200; event = some (event_to_json f ev); error = [] },
              (r.path, req) ∷ [],
            ))
        × (ev.method ≡ r.path)
        × (ev.request_body ≡ req)
        × (ev.response_body ≡ ans')
  serve_http-replayed c f upstream stamp again r sent received resp resp' req rest_req ans rest_ans
        ans' rest' upstream' events u e hs hr fs fr ls lr path u' fits live inverse none_at_all =
      let (reply, first, s, m, b, _, _) =
        serve_http-captures new_reader inflate c upstream stamp r sent received resp req rest_req
          ans rest_ans u e hs hr fs fr ls lr in
      let (ev, h, m', b', a') =
        replayed f upstream' again first ans' rest' resp' events inverse none_at_all
          (ap (λ p. has_prefix p (codes "/")) m ∙ path) (omega (arith, ap length b))
          (ap (λ p. upstream' p replay_header (frame first.request_body)) m
            ∙ ap (λ q. upstream' r.path replay_header (frame q)) b
            ∙ u')
          fits live in
      (
        reply,
        first,
        ev,
        s,
        h ∙ (λ t. (
          record { status = 200; event = some (event_to_json f ev); error = [] },
          (m t, b t) ∷ [],
        )),
        m' ∙ m,
        b' ∙ b,
        a',
      )
