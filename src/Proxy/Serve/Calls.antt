-- ===== src/Proxy/Serve/Calls.antt =====
-- proxy/reverse_proxy.go, ServeHTTP: several calls, and the events that they send.
use grpc_tap.Prelude.{◌≡◌, refl, ap, ◌∙◌, ◌++◌, Option, some, List, [], ◌∷◌, Bytes, All, map, ◌>>=◌}
use grpc_tap.Prelude.Int.{ℤ}
use grpc_tap.Proxy.Types.{Event}
use grpc_tap.Proxy.FrameCounter.Stream.{IsChunk}
use grpc_tap.Proxy.Detect.{detect_protocol}
use grpc_tap.Proxy.Status.{ConnectCodes, extract_status}
use grpc_tap.Proxy.Serve.{
  Request, OutRequest, Outcome, not_built, failed, answered, Reply, bad_gateway, Stamp, out_request,
  call_event, serve_http,
}
use grpc_tap.Proxy.Serve.Laws.{count_frames-some, captured-some, reply_to, serve_http-answered}

-- A call, with what becomes of the request to the upstream server.
pub record Call : Type 0 where
  pub upstream : OutRequest → Outcome
  pub stamp : Stamp
  pub request : Request

-- The bodies of an answered call are read in chunks of less than 2^32 bytes.
abbrev IsReadOf : Outcome → Type 0
IsReadOf (not_built e) = Unit
IsReadOf (failed e) = Unit
IsReadOf (answered sent resp received) = All IsChunk sent × All IsChunk received

abbrev pub IsRead : Call → Type 0
IsRead x = IsReadOf (x.upstream (out_request x.request))

-- What an event says of its call.
abbrev pub summary : Event → Bytes × (ℤ × Bytes)
summary ev = (ev.method, (ev.status, ev.error))

module _ (c : ConnectCodes) where
  -- An answered call is to be seen with its path, and the status and message of its answer.
  abbrev summary_of : Request → Outcome → List (Bytes × (ℤ × Bytes))
  summary_of r (not_built e) = []
  summary_of r (failed e) = []
  summary_of r (answered sent resp received) =
      (r.path, extract_status c (detect_protocol r.header) resp) ∷ []

  -- The calls that were answered, in their order.
  abbrev pub answers : List Call → List (Bytes × (ℤ × Bytes))
  answers [] = []
  answers (x ∷ calls) = summary_of x.request (x.upstream (out_request x.request)) ++ answers calls

  module _ {R : Type 0} (new_reader : Bytes → Option R) (inflate : R → Option Bytes) where
    -- The events that the calls send, one call after the other.
    abbrev pub serve_all : List Call → Option (List Event)
    serve_all [] = some []
    serve_all (x ∷ calls) = do
      (reply, evs) ← serve_http new_reader inflate c x.upstream x.stamp x.request
      rest ← serve_all calls
      some (evs ++ rest)

    serve_http-summary :
        (x : Call) (o : Outcome)
        → x.upstream (out_request x.request) ≡ o
        → IsReadOf o
        → (reply : Reply) × (evs : List Event) × (serve_http new_reader inflate c x.upstream x.stamp
              x.request
            ≡ some (reply, evs))
          × (map summary evs ≡ summary_of x.request o)
    unfolding serve_http call_event
    serve_http-summary x (not_built e) u h = (bad_gateway e, [], rw (serve_http, u) refl, refl)
    serve_http-summary x (failed e) u h = (bad_gateway e, [], rw (serve_http, u) refl, refl)
    serve_http-summary x (answered sent resp received) u (hs, hr) =
        let p = detect_protocol x.request.header in
        let (fq, q1) = count_frames-some p sent hs in
        let (fr, q2) = count_frames-some p received hr in
        let (bq, q3) = captured-some new_reader inflate c p sent in
        let (br, q4) = captured-some new_reader inflate c p received in
        (
          reply_to resp received,
          call_event c x.stamp x.request resp fq fr bq br ∷ [],
          serve_http-answered new_reader inflate c x.upstream x.stamp x.request sent received resp u
              q1 q2 q3 q4,
          refl,
        )

    map-append : (xs ys : List Event) → map summary (xs ++ ys) ≡ map summary xs ++ map summary ys
    map-append [] ys = refl
    map-append (x ∷ xs) ys = ap (λ l. summary x ∷ l) (map-append xs ys)

    -- Calls whose bodies are read in chunks of less than 2^32 bytes do not panic, and send one event
    -- for each of them that is answered, in their order, with its path, status and message.
    pub serve_all-summary :
        (calls : List Call)
        → All IsRead calls
        → (evs : List Event) × (serve_all calls ≡ some evs) × (map summary evs ≡ answers calls)
    serve_all-summary [] h = ([], refl, refl)
    serve_all-summary (x ∷ calls) (h, hs) =
        let (reply, evs, e, s) = serve_http-summary x (x.upstream (out_request x.request)) refl h in
        let (rest, e', s') = serve_all-summary calls hs in
        (
          evs ++ rest,
          rw (e, e') refl,
          map-append evs rest
              ∙ ap (λ l. l ++ map summary rest) s
              ∙ ap (λ l. summary_of x.request (x.upstream (out_request x.request)) ++ l) s',
        )
