-- ===== src/Web/Runs.antt =====
-- The server of the browser at concrete inputs.
use mathlib.Core.List.{Sublist}
use grpc_tap.Prelude.{
  Option, Bool, Result, bad, good, ◌⊎◌, ◌≡◌, refl, some, true, map, List, [], ◌∷◌, Bytes, codes,
}
use grpc_tap.Prelude.Int.{ℤ, pos}
use grpc_tap.Proxy.Types.{Event}
use grpc_tap.Web.Toy.{formats, constant}
use grpc_tap.Web.{EventJson, event_to_json}
use grpc_tap.Web.Sse.{arrived, stream, streaming, sse_headers, handle_sse}
use grpc_tap.Web.Sse.Stream.{read_stream, handle_sse-delivers}
use grpc_tap.Broker.World.{World, start, run, subscribes, publishes, receives}
use grpc_tap.Web.Routes.{
  Answer, Request, not_allowed, file, event_stream, matches, ends_in_slash, better, find_route,
  handle, dispatch, serve_at, serve,
}
use grpc_tap.Web.Routes.Laws.{IsReplay, IsTurnedAway, IsSent, serve-cases}

abbrev unreachable : Bytes → Bytes → Result Event
unreachable method body = bad (codes "replay: roundtrip: refused")

abbrev event : Event
event = record {
  id = codes "a";
  method = codes "/echo";
  call_type = pos 0;
  protocol = pos 0;
  start_time = pos 0;
  duration = pos 7;
  status = pos 0;
  error = [];
  request_headers = [];
  response_headers = [];
  request_body = [];
  response_body = [];
}

handle_sse-delivers_example :
    (w : World Event) × (chunks : List Bytes) × (run
        (subscribes ∷ publishes event ∷ publishes event ∷ receives 0 ∷ [])
        (start 1)
      ≡ some w)
    × (handle_sse formats (λ e. good (constant e)) true (map arrived (w.got 0))
        ≡ stream sse_headers chunks streaming)
    × (read_stream chunks ≡ map (λ ev. constant (event_to_json formats ev)) (w.got 0))
    × Sublist (w.got 0) (w.offered 0)
handle_sse-delivers_example =
    handle_sse-delivers formats (λ e. good (constant e)) constant (λ e. refl)
      (λ e. (refl, (refl, tt))) 1 (subscribes ∷ publishes event ∷ publishes event ∷ receives 0 ∷ [])
      0

-- JSON by a decoder that takes the whole body for the method, and one that writes the error alone.
abbrev marshal : Option (EventJson ℤ) → Bytes → Result Bytes
marshal ev e = good e

abbrev decode : Bytes → Bool → Result (Bytes × Bytes)
decode s more = good (s, [])

abbrev clean : Bytes → Bytes
clean s = s

abbrev post : Request
post = record { verb = codes "POST"; path = codes "/api/replay"; body = codes "/echo" }

serve-cases_example :
    ((¬ IsReplay post) × ((serve formats marshal decode clean unreachable post).1 ≡ []))
    ⊎ (IsReplay post
        × (IsTurnedAway formats marshal decode clean unreachable
              (serve formats marshal decode clean unreachable post)
            ⊎ IsSent formats marshal decode clean unreachable
                (serve formats marshal decode clean unreachable post)))
serve-cases_example = serve-cases formats marshal decode clean unreachable post refl

-- Which handler a request reaches.
abbrev answered : Bytes → Bytes → Answer
answered verb path =
    (serve formats marshal decode clean unreachable
      (record { verb = verb; path = path; body = [] })).0

watched : answered (codes "GET") (codes "/api/events") ≡ event_stream
unfolding serve serve_at dispatch find_route matches better ends_in_slash handle
watched = refl

page : answered (codes "HEAD") (codes "/app.js") ≡ file (codes "/app.js")
unfolding serve serve_at dispatch find_route matches better ends_in_slash handle
page = refl

refused : answered (codes "DELETE") (codes "/api/replay") ≡ not_allowed
unfolding serve serve_at dispatch find_route matches better ends_in_slash handle
refused = refl
